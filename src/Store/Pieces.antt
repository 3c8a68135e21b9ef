-- ===== src/Store/Pieces.antt =====
-- The loop of `Put` (put.go): what it stores and notes is determined by the pieces.
use go_shardblob.Base.{
  Bytes, ℕ, zero, suc, ◌≡◌, refl, sym, ap, ◌∙◌, arith, none, some, List, [], ◌∷◌, ◌++◌,
  append_assoc, append-nil, map, All, ◌⊎◌, inl, inr, Option-cases,
}
use go_shardblob.Base.Result.{ok, Error}
use go_shardblob.Hashx.{HashId, Algo, Hash, write, chunk_id}
use go_shardblob.Hashx.Tags.{write_all, concat}
use go_shardblob.Chunk.Splitter.{Piece, Next, piece, finished, broken, Splitter, next, split_loop}
use go_shardblob.Chunk.Splitter.Split.{joined}
use go_shardblob.Manifest.{Entry}
use go_shardblob.Blobstore.{Backend, IsLawful}
use go_shardblob.Store.{put_pieces, entry_of}
use go_shardblob.Store.Reading.{Holds}

abbrev pub bytes_of : List Piece → List Bytes
bytes_of = map (λ (p : Piece). p.bytes)

pub concat-bytes_of : (ps : List Piece) → concat (bytes_of ps) ≡ joined ps
concat-bytes_of [] = refl
concat-bytes_of (p ∷ ps) = ap (λ b. p.bytes ++ b) (concat-bytes_of ps)

abbrev pub entries_of : Algo → List Piece → List Entry
entries_of a = map (entry_of a)

-- The chunks of the pieces, stored one after the other.
abbrev pub store_all : (B : Backend) → Algo → B.State → List Piece → B.State
store_all B a b [] = b
store_all B a b (p ∷ ps) = store_all B a (B.put b (chunk_id a p.bytes) p.bytes).1 ps

Next-cases :
    (n : Next) → (n ≡ finished) ⊎ ((e : Error) × (n ≡ broken e)) ⊎ ((p : Piece) × (n ≡ piece p))
Next-cases finished = inl refl
Next-cases (broken e) = inr (inl (e, refl))
Next-cases (piece p) = inr (inr (p, refl))

module _ {B : Backend} (L : IsLawful B) where
  open L use {Ready, contents, put_ok, put-Ready, contents-put}

  next_piece :
      (fuel : ℕ) (sp : Splitter) (out : List Piece) (p : Piece)
      → (next sp).0 ≡ piece p
      → split_loop (suc fuel) sp out ≡ split_loop fuel (next sp).1 (out ++ (p ∷ []))
  unfolding split_loop
  next_piece fuel sp out p e = rw (e, split_loop) refl

  all_out :
      (fuel : ℕ) (sp : Splitter) (out qs : List Piece)
      → (next sp).0 ≡ finished
      → split_loop (suc fuel) sp out ≡ some (qs, none)
      → out ≡ qs
  unfolding split_loop
  all_out fuel sp out qs e h = ground arith

  none_broken :
      (fuel : ℕ) (sp : Splitter) (out qs : List Piece) (e : Error)
      → (next sp).0 ≡ broken e
      → split_loop (suc fuel) sp out ≡ some (qs, none)
      → ⊥
  unfolding split_loop
  none_broken fuel sp out qs e bad h = ground arith

  -- The loop follows the splitter: with the fuel on which splitting ends, it ends.
  pub put_pieces_lem :
      (a : Algo) (fuel : ℕ) (sp : Splitter) (before qs : List Piece)
      → split_loop fuel sp before ≡ some (qs, none)
      → (ps : List Piece) × (qs ≡ before ++ ps)
        × ((obj : Hash) (out : List Entry) (b : B.State)
            → Ready b
            → put_pieces B fuel a sp obj out b
              ≡ some (ok (write_all obj (bytes_of ps), out ++ entries_of a ps), store_all B a b ps))
  unfolding split_loop put_pieces
  put_pieces_lem a zero sp before qs h = cc
  put_pieces_lem a (suc fuel) sp before qs h = elim (Next-cases (next sp).0) [
    | inl end ↦ (
      [],
      sym (all_out fuel sp before qs end h) ∙ sym (append-nil before),
      λ obj out b r. rw (end, put_pieces) (rw append-nil refl),
    )
    | inr (inl (e, bad)) ↦ absurd (none_broken fuel sp before qs e bad h)
    | inr (inr (p, got)) ↦
        let (ps, same, run) =
          put_pieces_lem a fuel (next sp).1 (before ++ (p ∷ [])) qs
            (sym (next_piece fuel sp before p got) ∙ h) in
        (
          p ∷ ps,
          same ∙ append_assoc before (p ∷ []) ps,
          λ obj out b r.
              let id = chunk_id a p.bytes in
              let b' = (B.put b id p.bytes).1 in
              rw (got, put_ok b id p.bytes r, put_pieces)
                (run (write obj p.bytes) (out ++ (entry_of a p ∷ [])) b' (put-Ready b id p.bytes r)
                  ∙ ap
                      (λ es.
                        some (
                          ok (write_all (write obj p.bytes) (bytes_of ps), es),
                          store_all B a b' ps,
                        ))
                      (append_assoc out (entry_of a p ∷ []) (entries_of a ps))),
        )
  ]

  pub store_all-Ready :
      (a : Algo) (b : B.State) (ps : List Piece) → Ready b → Ready (store_all B a b ps)
  store_all-Ready a b [] r = r
  store_all-Ready a b (p ∷ ps) r =
      store_all-Ready a (B.put b (chunk_id a p.bytes) p.bytes).1 ps
        (put-Ready b (chunk_id a p.bytes) p.bytes r)

  -- A chunk that is stored stays as it is.
  pub store_all_keeps :
      (a : Algo) (b : B.State) (ps : List Piece) (j : HashId) (d : Bytes)
      → Ready b
      → contents b j ≡ some d
      → contents (store_all B a b ps) j ≡ some d
  store_all_keeps a b [] j d r h = h
  store_all_keeps a b (p ∷ ps) j d r h =
      let id = chunk_id a p.bytes in
      store_all_keeps a (B.put b id p.bytes).1 ps j d (put-Ready b id p.bytes r)
        (ground (arith, contents-put b id p.bytes j r, h))

  -- No two of the chunks involved share an identifier: `book` says which bytes each identifier has,
  -- for what is stored and for the pieces.
  abbrev pub Agrees : (HashId → Bytes) → Algo → B.State → List Piece → Type 0
  Agrees book a b ps =
      ((j : HashId) (d : Bytes) → contents b j ≡ some d → d ≡ book j)
      × All (λ (p : Piece). book (chunk_id a p.bytes) ≡ p.bytes) ps

  pub put_agrees :
      (book : HashId → Bytes) (b : B.State) (id : HashId) (p : Bytes)
      → Ready b
      → ((j : HashId) (d : Bytes) → contents b j ≡ some d → d ≡ book j)
      → book id ≡ p
      → (j : HashId) (d : Bytes) → contents (B.put b id p).1 j ≡ some d
      → d ≡ book j
  put_agrees book b id p r known meant j d e = elim (Option-cases (contents b j)) [
    | inl none_there ↦ ground (arith, contents-put b id p j r, none_there, e, meant)
    | inr (x, there) ↦ ground (arith, contents-put b id p j r, there, e, known j x there)
  ]

  pub stored_as_meant :
      (book : HashId → Bytes) (b : B.State) (id : HashId) (p : Bytes)
      → Ready b
      → ((j : HashId) (d : Bytes) → contents b j ≡ some d → d ≡ book j)
      → book id ≡ p
      → contents (B.put b id p).1 id ≡ some p
  stored_as_meant book b id p r known meant = elim (Option-cases (contents b id)) [
    | inl none_there ↦ ground (arith, contents-put b id p id r, none_there)
    | inr (x, there) ↦ ground (arith, contents-put b id p id r, there, known id x there, meant)
  ]

  pub contents-store_all :
      (book : HashId → Bytes) (a : Algo) (b : B.State) (ps : List Piece)
      → Ready b
      → Agrees book a b ps
      → Holds (contents (store_all B a b ps)) (entries_of a ps) (joined ps)
  contents-store_all book a b [] r h = refl
  contents-store_all book a b (p ∷ ps) r (known, (meant, all)) =
      let id = chunk_id a p.bytes in
      let b' = (B.put b id p.bytes).1 in
      let r' = put-Ready b id p.bytes r in
      let there : contents b' id ≡ some p.bytes = stored_as_meant book b id p.bytes r known meant in
      (
        p.bytes,
        joined ps,
        store_all_keeps a b' ps id p.bytes r' there,
        refl,
        contents-store_all book a b' ps r'
            ((λ j d e. put_agrees book b id p.bytes r known meant j d e), all),
      )
