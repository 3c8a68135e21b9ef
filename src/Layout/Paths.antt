-- ===== src/Layout/Paths.antt =====
-- Different identifiers have different paths (paths.go).
use go_shardblob.Base.{
  Bytes, ℕ, ◌+◌, ◌/◌, ◌%◌, ◌≡◌, refl, sym, ap, ◌∙◌, arith, [], ◌∷◌, ◌++◌, length, length-append,
  length-take, length-drop, take, drop, drop-length_append, ◌=?◌, append_assoc,
}
use mathlib.Core.Path.{ap₂}
use go_shardblob.Hashx.{HashId, codes}
use go_shardblob.Hashx.Ids.{hex, hex_encode, hex_digit, length-hex_encode}
use go_shardblob.Base.FilePath.{under}
use go_shardblob.Layout.{chunk_path}

hex_digit-eq : (m n : ℕ) → hex_digit m ≡ hex_digit n → m ≡ n
hex_digit-eq m n e = ground arith

hex_encode-eq : (a b : Bytes) → hex_encode a ≡ hex_encode b → a ≡ b
unfolding hex_encode
hex_encode-eq [] [] e = refl
hex_encode-eq [] (y ∷ b) e = cc
hex_encode-eq (x ∷ a) [] e = cc
hex_encode-eq (x ∷ a) (y ∷ b) e =
    let hi = hex_digit-eq (x / 16) (y / 16) (cc) in
    let lo = hex_digit-eq (x % 16) (y % 16) (cc) in
    ap₂ ◌∷◌ (omega (arith, hi, lo)) (hex_encode-eq a b (cc))

-- Equal texts behind fronts of one length have equal ends.
ends : (a b p q : Bytes) → length a ≡ length b → a ++ p ≡ b ++ q → p ≡ q
ends a b p q same e =
    sym (drop-length_append a p)
    ∙ ap (drop (length a)) e
    ∙ ap (λ n. drop n (b ++ q)) same
    ∙ drop-length_append b q

length-hex : (id : HashId) → length id ≡ 32 → length (hex id) ≡ 64
unfolding hex
length-hex id wide = omega (arith, length-hex_encode id)

-- What stands in front of the name of a chunk's file.
front : Bytes → HashId → Bytes
front root id =
    let h = hex id in
    under root ++ (codes "chunks/" ++ (take 2 h ++ (47 ∷ (take 2 (drop 2 h) ++ (47 ∷ [])))))

length-front :
    (root : Bytes) (id : HashId)
    → length id ≡ 32
    → length (front root id) ≡ length (under root) + 13
unfolding front
length-front root id wide =
    let h = hex id in
    let d = take 2 (drop 2 h) ++ (47 ∷ []) in
    let c = take 2 h ++ (47 ∷ d) in
    omega (
      arith,
      length-hex id wide,
      length-append {0} (under root) (codes "chunks/" ++ c),
      length-append {0} (take 2 h) (47 ∷ d),
      length-append {0} (take 2 (drop 2 h)) (47 ∷ []),
      length-take {0} 2 h,
      length-take {0} 2 (drop 2 h),
      length-drop {0} 2 h,
    )

chunk_path-front : (root : Bytes) (id : HashId) → chunk_path root id ≡ front root id ++ hex id
unfolding chunk_path front
chunk_path-front root id = simp append_assoc refl

-- In one directory, two identifiers of 32 bytes have the same path for their chunks exactly when they
-- are the same.
pub chunk_path-eq :
    (root : Bytes) (i j : HashId)
    → length i ≡ 32
    → length j ≡ 32
    → (chunk_path root i =? chunk_path root j) ≡ (i =? j)
chunk_path-eq root i j wi wj =
    let back = λ (e : chunk_path root i ≡ chunk_path root j). hex_encode-eq i j (
      unfold hex in
      ends (front root i) (front root j) (hex i) (hex j)
        (length-front root i wi ∙ sym (length-front root j wj))
        (sym (chunk_path-front root i) ∙ e ∙ chunk_path-front root j)) in
    ground (arith, back)
