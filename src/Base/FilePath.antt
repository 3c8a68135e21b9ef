-- ===== src/Base/FilePath.antt =====
-- `path/filepath` of the Go library on a Unix system, as documented: `Clean`, `Dir` and the `Join` of a
-- directory and a clean name.
use Prim.Native.Nat.{ℕ}
use mathlib.Core.Bool.{Bool, false, ◌||◌}
use mathlib.Core.List.{List, [], ◌∷◌, ◌++◌}
use go_shardblob.Base.Tests.{◌==◌, if◌then◌else◌}
use go_shardblob.Base.ByteString.{Bytes, ◌=?◌}

abbrev slash : ℕ
slash = 47

abbrev pub dot : Bytes
dot = 46 ∷ []

abbrev two_dots : Bytes
two_dots = 46 ∷ 46 ∷ []

abbrev with_first : ℕ → List Bytes → List Bytes
with_first c [] = (c ∷ []) ∷ []
with_first c (s ∷ ss) = (c ∷ s) ∷ ss

-- What stands between the slashes.
unfoldable pub segments : Bytes → List Bytes
segments [] = [] ∷ []
segments (c ∷ cs) = let rest = segments cs in if c == slash then [] ∷ rest else with_first c rest

-- `..` takes the last segment away, if there is one to take.
abbrev parent_of : Bool → List Bytes → List Bytes
parent_of rooted [] = if rooted then [] else two_dots ∷ []
parent_of rooted (s ∷ ss) = if s =? two_dots then two_dots ∷ s ∷ ss else ss

abbrev segment_step : Bool → List Bytes → Bytes → List Bytes
segment_step rooted st s =
    if (s =? []) || (s =? dot) then st else if s =? two_dots then parent_of rooted st else s ∷ st

-- The segments that stay, the last one first.
unfoldable pub resolve : Bool → List Bytes → List Bytes → List Bytes
resolve rooted st [] = st
resolve rooted st (s ∷ ss) = resolve rooted (segment_step rooted st s) ss

unfoldable pub joined : List Bytes → Bytes → Bytes
joined [] after = after
joined (s ∷ st) after = joined st (if after =? [] then s else s ++ (slash ∷ after))

abbrev is_rooted : Bytes → Bool
is_rooted [] = false
is_rooted (c ∷ cs) = c == slash

-- `Clean`
unfoldable pub clean : Bytes → Bytes
unfolding resolve joined segments
clean p =
    let body = joined (resolve (is_rooted p) [] (segments p)) [] in
    if is_rooted p then slash ∷ body else if body =? [] then dot else body

-- What stands in front of `name` in `Join(dir, name)`, for a name that is clean and relative.
unfoldable pub under : Bytes → Bytes
unfolding clean
under dir =
    let c = clean dir in if c =? (slash ∷ []) then c else if c =? dot then [] else c ++ (slash ∷ [])

-- The bytes up to the last slash, with it.
unfoldable pub to_slash : Bytes → Bytes
to_slash [] = []
to_slash (c ∷ cs) =
    let rest = to_slash cs in if c == slash then c ∷ rest else if rest =? [] then [] else c ∷ rest

-- `Dir`
unfoldable pub dir_of : Bytes → Bytes
unfolding clean to_slash
dir_of p = clean (to_slash p)
