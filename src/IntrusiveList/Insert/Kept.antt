-- ===== src/IntrusiveList/Insert/Kept.antt =====
-- What `hm_list_insert` of src/core/common.c leaves as it was.
use hiemal.Base.{
  ℕ, zero, suc, ◌<◌, ◌≡◌, ◌≢◌, refl, ap, sym, ◌∙◌, some, List, length, arith, false, ◌==◌,
}
use native.Mathlib.Decide.{dec_lt, ℕ_discrete}
use mathlib.Core.Option.{some-injective}
use hiemal.IntrusiveList.{Ptr, null, Node, Cells, ListState}
use hiemal.IntrusiveList.Chain.{at, at-end, prev_at}
use hiemal.IntrusiveList.Insert.{IsLinked}

-- A node of `s` and what becomes of it: it may be linked anew, but is freed in the same way.
abbrev pub Relinked : Cells → Ptr → Node → Type 0
Relinked c a m = (m' : Node) × (c a ≡ some m') × (m'.free_fn ≡ m.free_fn)

at-outside :
    (xs : List Ptr) (a : Ptr) (j : ℕ)
    → a ≢ null
    → ((j : ℕ) → j < length xs → at xs j ≢ a)
    → at xs j ≢ a
at-outside xs a j live out = elim (dec_lt j (length xs)) [
  | yes lt ↦ out j lt
  | no ge ↦ λ e. live (sym e ∙ at-end xs j (omega arith))
]

prev_at-outside :
    (xs : List Ptr) (a : Ptr) (i : ℕ)
    → a ≢ null
    → ((j : ℕ) → j < length xs → at xs j ≢ a)
    → prev_at xs i ≢ a
prev_at-outside xs a zero live out = λ e. live (sym e)
prev_at-outside xs a (suc j) live out = at-outside xs a j live out

module _ {s s' : ListState} (xs : List Ptr) {p : Ptr} {n : Node} (i : ℕ)
    (l : IsLinked s s' p n (prev_at xs i) (at xs i)) where
  pub linked-Relinked :
      s.cell p ≡ some n → (a : Ptr) (m : Node) → a ≢ null → s.cell a ≡ some m → Relinked s'.cell a m
  linked-Relinked e a m live c = elim (ℕ_discrete a p) [
    | yes eq ↦ (
      record n { prev = prev_at xs i; next = at xs i },
      ap s'.cell eq ∙ l.self,
      ap (λ x. x.free_fn) (some-injective n m (sym e ∙ ap s.cell (sym eq) ∙ c)),
    )
    | no ne ↦ (_, l.other a m live ne c, refl)
  ]

  pub linked-outside :
      (a : Ptr) (m : Node)
      → a ≢ null
      → a ≢ p
      → ((j : ℕ) → j < length xs → at xs j ≢ a)
      → s.cell a ≡ some m
      → s'.cell a ≡ some m
  linked-outside a m live ne out c =
      let behind : (a == at xs i) ≡ false = ground (arith, at-outside xs a i live out) in
      let before : (a == prev_at xs i) ≡ false = ground (arith, prev_at-outside xs a i live out) in
      l.other a m live ne c ∙ rw (behind, before) refl
