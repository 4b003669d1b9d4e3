-- ===== src/IntrusiveList/Clear.antt =====
-- `hm_list_clear` of src/core/common.c, on a well-formed list of nodes that it frees itself.
use hiemal.Base.{
  ℕ, zero, suc, ◌+◌, ◌≤◌, ◌<◌, ◌≡◌, ◌≢◌, refl, ap, ◌∙◌, none, some, List, [], length, arith, false,
  ◌==◌,
}
use native.Mathlib.Decide.{dec_lt, ℕ_discrete}
use hiemal.Base.Int.{pos}
use hiemal.IntrusiveList.{Ptr, null, default_free, Node, Cells, ListState, ok, write, load}
use hiemal.IntrusiveList.Access.{clear_loop, clear, call_free}
use hiemal.IntrusiveList.Chain.{IsList, at, at-end, node_at}

-- Every node is one for `free`.
abbrev pub AreFree : ListState → List Ptr → Type 0
AreFree s xs =
    (i : ℕ) (n : Node) → i < length xs → s.cell (at xs i) ≡ some n → n.free_fn ≡ default_free

-- The nodes from the index `j` on are freed, and nothing else.
pub record IsFreed (xs : List Ptr) (j : ℕ) (c c' : Cells) : Type 0 where
  pub freed : (i : ℕ) → j ≤ i → i < length xs → c' (at xs i) ≡ none
  pub kept : (p : Ptr) → ((i : ℕ) → j ≤ i → i < length xs → at xs i ≢ p) → c' p ≡ c p

load-some : (p : Ptr) (n : Node) (t : ListState) → p ≢ null → t.cell p ≡ some n → load p t ≡ ok n t
unfolding load
load-some p n t live e = ground (arith, live)

abbrev with_cells : ListState → Cells → ListState
with_cells t c = record t { cell = c }

module _ (callback : ℕ → Ptr → Cells → Cells) {s : ListState} {xs : List Ptr} (v : IsList s xs)
    (f : AreFree s xs) where
  clear_loop-frees :
      (k j : ℕ) (t : ListState)
      → j ≤ length xs
      → length xs < j + k
      → ((i : ℕ) → j ≤ i → i < length xs → t.cell (at xs i) ≡ s.cell (at xs i))
      → (c : Cells) × (clear_loop callback k (at xs j) t ≡ ok tt (with_cells t c))
        × IsFreed xs j t.cell c
  unfolding clear_loop call_free write
  clear_loop-frees zero j t le fuel same = absurd (omega arith)
  clear_loop-frees (suc k) j t le fuel same = elim (dec_lt j (length xs)) [
    | yes lt ↦
        let (n, e, _, e') = node_at v j lt in
        let c1 = write t.cell (at xs j) none in
        let apart : (i : ℕ) → suc j ≤ i → i < length xs → at xs i ≢ at xs j =
          λ i h l eq. omega (arith, v.distinct i j l lt eq) in
        let live : (at xs j == null) ≡ false = ground (arith, v.live j lt) in
        let (c, r, w) =
          clear_loop-frees k (suc j) (with_cells t c1) lt (omega arith)
            (λ i h l. ground (arith, apart i h l, same i (omega arith) l)) in
        (
          c,
          rw
              (
                live,
                load-some (at xs j) n t (v.live j lt) (same j (omega arith) lt ∙ e),
                f j n lt e,
                e',
              )
              r,
          record {
            freed = λ i h l. elim (ℕ_discrete i j) [
              | yes eq ↦ ap (λ i. c (at xs i)) eq ∙ w.kept (at xs j) apart ∙ ground arith
              | no ne ↦ w.freed i (omega arith) l
            ];
            kept =
                λ p h. w.kept p (λ i g. h i (omega arith)) ∙ ground (arith, h j (omega arith) lt);
          },
        )
    | no ge ↦ (
      t.cell,
      rw (at-end xs j (omega arith)) refl,
      record { freed = λ i h l. absurd (omega arith); kept = λ p h. refl },
    )
  ]

-- A list without nodes, and the heap without the nodes of `xs`
pub record IsCleared (s s' : ListState) (xs : List Ptr) : Type 0 where
  pub empty : IsList s' []
  pub magic : s'.magic ≡ s.magic
  pub cells : IsFreed xs 0 s.cell s'.cell

pub empty-IsList : (t : ListState) → t.head ≡ null → t.n_items ≡ 0 → IsList t []
empty-IsList t h c = record {
  first = h;
  count = c;
  small = omega arith;
  live = λ i lt. elim lt [ ];
  linked = λ i lt. elim lt [ ];
  distinct = λ i j lt. elim lt [ ];
}

-- `hm_list_clear` of a well-formed list, whose nodes are all for `free`, ends and returns 0: each node is freed and
-- nothing else, and the list is empty and well formed.
pub clear-frees :
    (callback : ℕ → Ptr → Cells → Cells) {s : ListState} {xs : List Ptr}
    → IsList s xs
    → AreFree s xs
    → (s' : ListState) × (clear callback s ≡ ok (pos 0) s') × IsCleared s s' xs
unfolding clear
clear-frees callback {s = s} {xs = xs} v f =
    let (c, r, w) =
      clear_loop-frees callback v f (s.n_items + 1) 0 s (omega arith) (omega (arith, v.count))
        (λ i _ _. refl) in
    let t : ListState = record s { n_items = 0; head = null; cell = c } in
    (
      t,
      rw (ap (λ p. clear_loop callback (s.n_items + 1) p s) v.first ∙ r) refl,
      record { empty = empty-IsList t refl refl; magic = refl; cells = w },
    )
