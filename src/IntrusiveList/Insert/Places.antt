-- ===== src/IntrusiveList/Insert/Places.antt =====
-- Where the addresses of a list stand after an insertion.
use hiemal.Base.{ℕ, zero, suc, ◌-◌, ◌≤◌, ◌<◌, ◌≡◌, refl, ap, List, [], ◌∷◌, length, arith}
use native.Mathlib.Decide.{dec_lt, ℕ_discrete}
use hiemal.IntrusiveList.{Ptr}
use hiemal.IntrusiveList.Chain.{at}

abbrev pub insert_at : ℕ → Ptr → List Ptr → List Ptr
insert_at zero p xs = p ∷ xs
insert_at (suc i) p [] = p ∷ []
insert_at (suc i) p (x ∷ xs) = x ∷ insert_at i p xs

pub length-insert_at :
    (i : ℕ) (p : Ptr) (xs : List Ptr) → length (insert_at i p xs) ≡ suc (length xs)
length-insert_at zero p xs = refl
length-insert_at (suc i) p [] = refl
length-insert_at (suc i) p (x ∷ xs) = ap suc (length-insert_at i p xs)

pub at-before :
    (i j : ℕ) (p : Ptr) (xs : List Ptr) → j < i → i ≤ length xs → at (insert_at i p xs) j ≡ at xs j
at-before zero j p xs lt le = elim lt [ ]
at-before (suc i) j p [] lt le = elim le [ ]
at-before (suc i) zero p (x ∷ xs) lt le = refl
at-before (suc i) (suc j) p (x ∷ xs) lt le = at-before i j p xs (omega arith) (omega arith)

pub at-here : (i : ℕ) (p : Ptr) (xs : List Ptr) → i ≤ length xs → at (insert_at i p xs) i ≡ p
at-here zero p xs le = refl
at-here (suc i) p [] le = elim le [ ]
at-here (suc i) p (x ∷ xs) le = at-here i p xs (omega arith)

pub at-after :
    (i j : ℕ) (p : Ptr) (xs : List Ptr)
    → i ≤ j
    → i ≤ length xs
    → at (insert_at i p xs) (suc j) ≡ at xs j
at-after zero j p xs lt le = refl
at-after (suc i) j p [] lt le = elim le [ ]
at-after (suc i) zero p (x ∷ xs) lt le = elim lt [ ]
at-after (suc i) (suc j) p (x ∷ xs) lt le = at-after i j p xs (omega arith) (omega arith)

-- The three kinds of index of the new list
pub data Place (i : ℕ) (j : ℕ) : Type 0 where
  before : j < i → Place i j
  here : j ≡ i → Place i j
  after : (k : ℕ) → i ≤ k → j ≡ suc k → Place i j

pub place : (i j : ℕ) → Place i j
place i j = elim (dec_lt j i) [
  | yes lt ↦ before lt
  | no ge ↦ elim (ℕ_discrete j i) [
    | yes e ↦ here e
    | no ne ↦ after (j - 1) (omega arith) (omega arith)
  ]
]
