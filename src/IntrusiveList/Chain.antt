-- ===== src/IntrusiveList/Chain.antt =====
-- Well-formed lists: the nodes at the addresses `xs` are linked both ways, in that order.
use hiemal.Base.{
  ℕ, zero, suc, ◌+◌, ◌^◌, ◌≤◌, ◌<◌, ◌≡◌, ◌≢◌, refl, ap, Option, none, some, List, [], ◌∷◌, length,
  get_or, arith, false, ◌==◌,
}
use hiemal.IntrusiveList.{
  Ptr, null, Node, ListState, ok, Slot, head_slot, next_of, load, get_slot, walk,
}

-- The address at an index; null past the end
abbrev pub at : List Ptr → ℕ → Ptr
at xs i = get_or xs i null

abbrev pub Linked : Option Node → (prev next : Ptr) → Type 0
Linked none p q = ⊥
Linked (some n) p q = (n.prev ≡ p) × (n.next ≡ q)

abbrev pub prev_at : List Ptr → ℕ → Ptr
prev_at xs zero = null
prev_at xs (suc i) = at xs i

pub record IsList (s : ListState) (xs : List Ptr) : Type 0 where
  pub first : s.head ≡ at xs 0
  pub count : s.n_items ≡ length xs
  pub small : length xs < 2 ^ 31
  pub live : (i : ℕ) → i < length xs → at xs i ≢ null
  pub linked : (i : ℕ) → i < length xs → Linked (s.cell (at xs i)) (prev_at xs i) (at xs (suc i))
  pub distinct : (i j : ℕ) → i < length xs → j < length xs → at xs i ≡ at xs j → i ≡ j

-- The node behind a link
pub Linked-some :
    (o : Option Node) (p q : Ptr)
    → Linked o p q
    → (n : Node) × (o ≡ some n) × (n.prev ≡ p) × (n.next ≡ q)
Linked-some none p q h = absurd h
Linked-some (some n) p q h = (n, refl, h.0, h.1)

pub at-end : (xs : List Ptr) (i : ℕ) → length xs ≤ i → at xs i ≡ null
at-end [] i h = refl
at-end (x ∷ xs) zero h = elim h [ ]
at-end (x ∷ xs) (suc i) h = at-end xs i (omega arith)

-- The slot that holds the address at an index
abbrev pub slot_at : List Ptr → ℕ → Slot
slot_at xs zero = head_slot
slot_at xs (suc i) = next_of (at xs i)

-- What `node_prev` is after `k` rounds from index `j`
abbrev pub slot_behind : List Ptr → (before : Slot) → (j k : ℕ) → Slot
slot_behind xs before j zero = before
slot_behind xs before j (suc k) = slot_at xs (j + k)

slot_behind-suc :
    (xs : List Ptr) (j k : ℕ) → slot_behind xs (slot_at xs j) (suc j) k ≡ slot_at xs (j + k)
slot_behind-suc xs j zero = ap (slot_at xs) (omega arith)
slot_behind-suc xs j (suc k) = ap (slot_at xs) (omega arith)

module _ {s : ListState} {xs : List Ptr} (v : IsList s xs) where
  pub node_at :
      (i : ℕ)
      → i < length xs
      → (n : Node) × (s.cell (at xs i) ≡ some n)
        × (n.prev ≡ prev_at xs i)
        × (n.next ≡ at xs (suc i))
  node_at i lt = Linked-some (s.cell (at xs i)) (prev_at xs i) (at xs (suc i)) (v.linked i lt)

  pub load-ok :
      (i : ℕ) (n : Node) → i < length xs → s.cell (at xs i) ≡ some n → load (at xs i) s ≡ ok n s
  unfolding load
  load-ok i n lt e = ground (arith, v.live i lt)

  pub get_slot-at : (i : ℕ) → i ≤ length xs → get_slot (slot_at xs i) s ≡ ok (at xs i) s
  unfolding get_slot
  get_slot-at zero le = ap (λ p. ok p s) v.first
  get_slot-at (suc i) le =
      let (n, e, _, e') = node_at i le in rw (load-ok i n le e) (ap (λ p. ok p s) e')

  -- The walk ends at the slot of the index, and remembers the one before.
  pub walk-at :
      (k j : ℕ) (before : Slot)
      → j + k ≤ length xs
      → walk k (slot_at xs j) before s ≡ ok (slot_at xs (j + k), slot_behind xs before j k) s
  unfolding walk
  walk-at zero j before le = ap (λ i. ok (slot_at xs i, before) s) (omega arith)
  walk-at (suc k) j before le =
      let e = get_slot-at j (omega arith) in
      let live : (at xs j == null) ≡ false = ground (arith, v.live j (omega arith)) in
      rw (e, live, walk-at k (suc j) (slot_at xs j) (omega arith), slot_behind-suc xs j k)
        (ap (λ i. ok (slot_at xs i, slot_at xs (j + k)) s) (omega arith))
