-- ===== src/IntrusiveList/Faults.antt =====
-- The removals of src/core/common.c at the end of a list, where they follow a null pointer.
use hiemal.Base.{
  ℕ, zero, suc, ◌+◌, ◌%◌, ◌^◌, ◌≤◌, ◌<◌, ◌≡◌, refl, ap, ◌∙◌, Bool, true, false, some, List, length,
  arith, ◌==◌, ltb,
}
use native.Mathlib.Decide.{ℕ_discrete}
use native.Mathlib.Nat.{zero-add}
use hiemal.Base.Int.{pos}
use hiemal.IntrusiveList.{
  Ptr, null, FreeFn, Node, Cells, ListState, fault, load, put_slot, head_slot,
}
use hiemal.IntrusiveList.Access.{remove, unlink, remove_where_loop, remove_where}
use hiemal.IntrusiveList.Chain.{IsList, at, at-end, node_at, load-ok, get_slot-at, walk-at}

module _ (callback : ℕ → Ptr → Cells → Cells) (free_fn : FreeFn) {s : ListState} {xs : List Ptr}
    (v : IsList s xs) where
  -- `hm_list_remove` at the index that is the number of items of a well-formed list passes the bounds check,
  -- and then follows a null pointer.
  pub remove-past_end : remove callback (pos s.n_items) free_fn s ≡ fault
  unfolding remove load
  remove-past_end =
      let guard : ltb s.n_items (s.n_items % 2 ^ 32) ≡ false = ground (arith, v.count, v.small) in
      let le : s.n_items ≤ length xs = omega (arith, v.count) in
      rw
        (
          guard,
          walk-at v s.n_items 0 head_slot (omega (arith, le)),
          zero-add s.n_items,
          get_slot-at v s.n_items le,
          at-end xs s.n_items (omega (arith, v.count)),
        )
        refl

  -- With no node behind it, the removal of a node stores to a null pointer.
  unlink-null : (p : Ptr) (t : ListState) → unlink callback free_fn p null t ≡ fault
  unfolding unlink load put_slot
  unlink-null p t = ground arith

  module _ (matches : Ptr → Node → Bool) where
    loop-faults :
        (k j : ℕ)
        → j < length xs
        → length xs ≤ j + k
        → ((i : ℕ) (n : Node)
            → i < length xs
            → s.cell (at xs i) ≡ some n
            → matches (at xs i) n ≡ (suc i == length xs))
        → remove_where_loop callback matches free_fn k (at xs j) s ≡ fault
    unfolding remove_where_loop
    loop-faults zero j lt le m = absurd (omega arith)
    loop-faults (suc k) j lt le m =
        let (n, e, e1, e2) = node_at v j lt in
        let live : (at xs j == null) ≡ false = ground (arith, v.live j lt) in
        rw (live, load-ok v j n lt e, e2)
          (elim (ℕ_discrete (suc j) (length xs)) [
            | yes eq ↦
                let here : matches (at xs j) n ≡ true = m j n lt e ∙ ground arith in
                rw (here, at-end xs (suc j) (omega arith), unlink-null (at xs j) s) refl
            | no ne ↦
                let other : matches (at xs j) n ≡ false = m j n lt e ∙ ground arith in
                rw (other) (loop-faults k (suc j) (omega arith) (omega arith) m)
          ])

    -- `hm_list_remove_where` on a well-formed list of which the last node alone matches stores to a null
    -- pointer.
    pub remove_where-last :
        0 < length xs
        → ((i : ℕ) (n : Node)
            → i < length xs
            → s.cell (at xs i) ≡ some n
            → matches (at xs i) n ≡ (suc i == length xs))
        → remove_where callback matches free_fn s ≡ fault
    unfolding remove_where
    remove_where-last lt m =
        ap (λ p. remove_where_loop callback matches free_fn (s.n_items + 1) p s) v.first
        ∙ loop-faults (s.n_items + 1) 0 lt (omega (arith, v.count)) m
