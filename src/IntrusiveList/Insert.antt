-- ===== src/IntrusiveList/Insert.antt =====
-- `hm_list_insert` of src/core/common.c on a list of plain nodes.
pub mod Places
pub mod Kept
pub mod Listed
use hiemal.Base.{
  ℕ, zero, suc, ◌+◌, ◌-◌, ◌%◌, ◌^◌, ◌≤◌, ◌<◌, ◌≡◌, ◌≢◌, refl, ap, sym, ◌∙◌, Bool, Option, none,
  some, List, [], ◌∷◌, length, arith, true, false, ◌==◌, ltb, if◌then◌else◌, Bool-cases, inl, inr,
}
use native.Mathlib.Decide.{dec_lt}
use hiemal.Base.Int.{ℤ, pos, negsuc}
use hiemal.IntrusiveList.{
  Ptr, null, Node, Cells, ListState, Run, ok, fault, load, write, ◌>>=◌, subtype_id, index_of, Slot,
  head_slot, next_of, get_slot, put_slot, set_prev, link, walk, attach, insert,
}
use hiemal.IntrusiveList.Chain.{IsList, at, at-end, prev_at, node_at, slot_at, slot_behind, walk-at}

-- Whether `s'` is `s` with the node `n` at `p` linked in between the addresses `before` and `behind`
pub record IsLinked (s s' : ListState) (p : Ptr) (n : Node) (before behind : Ptr) : Type 0 where
  pub head : s'.head ≡ (if before == null then p else s.head)
  pub n_items : s'.n_items ≡ s.n_items
  pub magic : s'.magic ≡ s.magic
  pub self : s'.cell p ≡ some (record n { prev = before; next = behind })
  pub other :
      (a : Ptr) (m : Node)
      → a ≢ null
      → a ≢ p
      → s.cell a ≡ some m
      → s'.cell a
        ≡ some (record m {
          prev = if a == behind then p else m.prev;
          next = if a == before then p else m.next;
        })

module _ (s : ListState) (p : Ptr) (n : Node) (p_live : p ≢ null) (p_cell : s.cell p ≡ some n) where
  -- in front of the list, which is empty or not
  link-front_end :
      s.head ≡ null
      → (s' : ListState) × (link p 0 head_slot head_slot s ≡ ok tt s') × IsLinked s s' p n null null
  unfolding link get_slot put_slot set_prev load write
  link-front_end e = (
    record s {
      head = p;
      cell =
          write (write s.cell p (some (record n { next = null }))) p
            (some (record n { next = null; prev = null }));
    },
    ground arith,
    ground arith,
  )

  link-front :
      (q : Ptr) (m : Node)
      → s.head ≡ q
      → q ≢ null
      → q ≢ p
      → s.cell q ≡ some m
      → (s' : ListState) × (link p 0 head_slot head_slot s ≡ ok tt s') × IsLinked s s' p n null q
  unfolding link get_slot put_slot set_prev load write
  link-front q m e live fresh c = (
    record s {
      head = p;
      cell =
          write
            (write (write s.cell p (some (record n { next = q }))) p
              (some (record n { next = q; prev = null })))
            q (some (record m { prev = p }));
    },
    ground arith,
    ground arith,
  )

  -- behind the node `o`, whose address the slot `b` holds whatever is stored at `p`
  module _ (i : ℕ) (o : Ptr) (b : Slot) (k : Node) (o_live : o ≢ null) (o_fresh : o ≢ p)
      (o_cell : s.cell o ≡ some k)
      (b_slot : (c : Node)
        → let t = record s { cell = write s.cell p (some c) } in get_slot b t ≡ ok o t) where
    link-end :
        k.next ≡ null
        → (s' : ListState) × (link p (suc i) (next_of o) b s ≡ ok tt s') × IsLinked s s' p n o null
    unfolding link get_slot put_slot set_prev load write
    link-end e = (
      record s {
        cell =
            write
              (write (write s.cell p (some (record n { next = null }))) p
                (some (record n { next = null; prev = o })))
              o (some (record k { next = p }));
      },
      ground (arith, b_slot (record n { next = null })),
      ground arith,
    )

    link-between :
        (q : Ptr) (m : Node)
        → k.next ≡ q
        → q ≢ null
        → q ≢ p
        → q ≢ o
        → s.cell q ≡ some m
        → (s' : ListState) × (link p (suc i) (next_of o) b s ≡ ok tt s') × IsLinked s s' p n o q
    unfolding link get_slot put_slot set_prev load write
    link-between q m e live fresh apart c = (
      record s {
        cell =
            write
              (write
                (write (write s.cell p (some (record n { next = q }))) p
                  (some (record n { next = q; prev = o })))
                q (some (record m { prev = p })))
              o (some (record k { next = p }));
      },
      ground (arith, b_slot (record n { next = q })),
      ground arith,
    )

module _ {s : ListState} {xs : List Ptr} (v : IsList s xs) (p : Ptr) (n : Node) (p_live : p ≢ null)
    (p_cell : s.cell p ≡ some n) (fresh : (j : ℕ) → j < length xs → at xs j ≢ p) where
  -- A slot of the list keeps its content when the new node is written to.
  slot-kept :
      (i : ℕ) (c : Node)
      → i < length xs
      → let t = record s { cell = write s.cell p (some c) } in
        get_slot (slot_at xs i) t ≡ ok (at xs i) t
  unfolding get_slot load write
  slot-kept zero c lt = ground (arith, v.first)
  slot-kept (suc i) c lt =
      let (m, e, _, e') = node_at v i (omega arith) in
      ground (arith, v.live i (omega arith), fresh i (omega arith))

  behind-kept :
      (i : ℕ) (c : Node)
      → i < length xs
      → let t = record s { cell = write s.cell p (some c) } in
        get_slot (slot_behind xs head_slot 0 (suc i)) t ≡ ok (at xs i) t
  behind-kept i c lt = let e : 0 + i ≡ i = omega arith in rw e (slot-kept i c lt)

  -- The body of `hm_list_insert`, at the slots where the walk ends
  pub link-at :
      (i : ℕ)
      → i ≤ length xs
      → (s' : ListState) × (link p i (slot_at xs i) (slot_behind xs head_slot 0 i) s ≡ ok tt s')
        × IsLinked s s' p n (prev_at xs i) (at xs i)
  link-at zero le = elim (dec_lt 0 (length xs)) [
    | yes lt ↦
        let (m, e, _, _) = node_at v 0 lt in
        link-front s p n p_live p_cell (at xs 0) m v.first (v.live 0 lt) (fresh 0 lt) e
    | no ge ↦
        rw (at-end xs 0 (omega arith))
          (link-front_end s p n p_live p_cell (v.first ∙ at-end xs 0 (omega arith)))
  ]
  link-at (suc i) le =
      let (k, e, _, e') = node_at v i le in
      let b = slot_behind xs head_slot 0 (suc i) in
      elim (dec_lt (suc i) (length xs)) [
        | yes lt ↦
            let (m, c, _, _) = node_at v (suc i) lt in
            link-between s p n p_live p_cell i (at xs i) b k (v.live i le) (fresh i le) e
              (λ c. behind-kept i c le) (at xs (suc i)) m e' (v.live (suc i) lt) (fresh (suc i) lt)
              (λ q. absurd (omega (arith, v.distinct (suc i) i lt le q))) c
        | no ge ↦ rw (at-end xs (suc i) (omega arith)) (
            link-end s p n p_live p_cell i (at xs i) b k (v.live i le) (fresh i le) e
              (λ c. behind-kept i c le) (e' ∙ at-end xs (suc i) (omega arith)))
      ]
