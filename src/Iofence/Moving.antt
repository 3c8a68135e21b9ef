-- ===== src/Iofence/Moving.antt =====
-- What a move of one goroutine does to sums and predicates over all of them.
use go_shardblob.Base.{ℕ, ◌+◌, ◌≤◌, ◌≡◌, arith, List, [], ◌∷◌, All}
use go_shardblob.Iofence.{Moves, here, there}

-- The sum of a weight over all goroutines.
unfoldable pub sum_of {ℓ} : {P : Type ℓ} → (P → ℕ) → List P → ℕ
sum_of w [] = 0
sum_of w (p ∷ ps) = w p + sum_of w ps

-- A move exchanges the weight of one goroutine.
pub sum_of-Moves {ℓ} :
    {P : Type ℓ} (w : P → ℕ) (p q : P) (ps qs : List P)
    → Moves p q ps qs
    → sum_of w qs + w p ≡ sum_of w ps + w q
unfolding sum_of
sum_of-Moves w p q [] qs m = elim m [ ]
sum_of-Moves w p q (x ∷ ps) [] m = elim m [ ]
sum_of-Moves w p q (x ∷ ps) (y ∷ qs) here = omega arith
sum_of-Moves w p q (x ∷ ps) (y ∷ qs) (there m) = omega (arith, sum_of-Moves w p q ps qs m)

pub sum_of-le {ℓ} :
    {P : Type ℓ} (v w : P → ℕ) (ps : List P) → ((p : P) → v p ≤ w p) → sum_of v ps ≤ sum_of w ps
unfolding sum_of
sum_of-le v w [] h = omega arith
sum_of-le v w (p ∷ ps) h = omega (arith, h p, sum_of-le v w ps h)

-- What holds of all still does after a move, for the goroutine's new phase.
pub All-Moves {ℓ κ} :
    {P : Type ℓ} (Q : P → Type κ) (p q : P) (ps qs : List P)
    → Moves p q ps qs
    → All Q ps
    → Q q
    → All Q qs
All-Moves Q p q [] qs m h new = elim m [ ]
All-Moves Q p q (x ∷ ps) [] m h new = elim m [ ]
All-Moves Q p q (x ∷ ps) (y ∷ qs) here (h, hs) new = (new, hs)
All-Moves Q p q (x ∷ ps) (y ∷ qs) (there m) (h, hs) new = (h, All-Moves Q p q ps qs m hs new)

-- And it was true of the goroutine that moves.
pub All-moved {ℓ κ} :
    {P : Type ℓ} (Q : P → Type κ) (p q : P) (ps qs : List P) → Moves p q ps qs → All Q ps → Q p
All-moved Q p q [] qs m h = elim m [ ]
All-moved Q p q (x ∷ ps) [] m h = elim m [ ]
All-moved Q p q (x ∷ ps) (y ∷ qs) here (h, hs) = h
All-moved Q p q (x ∷ ps) (y ∷ qs) (there m) (h, hs) = All-moved Q p q ps qs m hs

pub All-map {ℓ κ μ} :
    {P : Type ℓ} (Q : P → Type κ) (R : P → Type μ) (ps : List P)
    → ((p : P) → Q p → R p)
    → All Q ps
    → All R ps
All-map Q R [] f h = tt
All-map Q R (p ∷ ps) f (h, hs) = (f p h, All-map Q R ps f hs)
