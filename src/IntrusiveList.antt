-- ===== src/IntrusiveList.antt =====
-- The intrusive doubly linked lists of src/core/common.c and include/intern/common.h, over an explicit
-- heap of nodes. The children prove what the operations do to a well-formed list.
pub mod Access
pub mod Chain
pub mod Insert
pub mod Walk
pub mod Faults
pub mod Clear
pub mod Life
pub mod Tests
use hiemal.Base.{
  ℕ, zero, suc, ◌+◌, ◌-◌, ◌*◌, ◌/◌, ◌%◌, ◌^◌, Bool, true, false, Option, none, some, ltb, ◌==◌,
  if◌then◌else◌,
}
use hiemal.Base.Int.{ℤ, pos, negsuc}

abbrev pub Ptr : Type 0
Ptr = ℕ

abbrev pub null : Ptr
null = 0

-- `free_fn`: null, `default_node_free_fn`, or a function of the client's
pub data FreeFn : Type 0 where
  no_fn default_free : FreeFn
  client : ℕ → FreeFn

-- `HM_LIST_NODE_HEAD`, and the `node` that a `struct hm_list_refnode` holds behind it
pub record Node : Type 0 where
  pub magic : ℕ
  pub data_size : ℕ
  pub free_fn : FreeFn
  pub prev : Ptr
  pub next : Ptr
  pub node : Ptr

abbrev pub Cells : Type 0
Cells = Ptr → Option Node

-- `struct hm_list` beside the nodes
pub record ListState : Type 0 where
  pub magic : ℕ
  pub head : Ptr
  pub n_items : ℕ
  pub cell : Cells

-- `fault`: a null pointer, or one to no node, is followed.
pub data Run (A : Type 0) : Type 0 where
  ok : A → ListState → Run A
  fault : Run A
  out_of_fuel : Run A

abbrev pub Cmd : Type 0 → Type 0
Cmd A = ListState → Run A

abbrev pub pure : {A : Type 0} → A → Cmd A
pure = ok

module _ {A B : Type 0} where
  abbrev pub and_then : Run A → (A → Cmd B) → Run B
  and_then (ok a s) k = k a s
  and_then fault k = fault
  and_then out_of_fuel k = out_of_fuel

  infixl 5 ◌>>=◌ ◌>>◌
  abbrev pub ◌>>=◌ : Cmd A → (A → Cmd B) → Cmd B
  m >>= k = λ s. and_then (m s) k

  abbrev pub ◌>>◌ : Cmd A → Cmd B → Cmd B
  m >> n = m >>= λ _. n

unfoldable pub write : Cells → Ptr → Option Node → Cells
write c p n a = if a == p then n else c a

-- `*p`
unfoldable pub load : Ptr → Cmd Node
load p s = if p == null then fault else elim (s.cell p) [ none ↦ fault | some n ↦ ok n s ]

abbrev pub store : Ptr → Node → Cmd (Unit {0})
store p n s = ok tt (record s { cell = write s.cell p (some n) })

-- A `struct hm_list_node **`: the head of the list, or the `next` of a node
pub data Slot : Type 0 where
  head_slot : Slot
  next_of : Ptr → Slot

unfoldable pub get_slot : Slot → Cmd Ptr
unfolding load
get_slot head_slot = λ s. ok s.head s
get_slot (next_of p) = do n ← load p; pure n.next

unfoldable pub put_slot : Slot → Ptr → Cmd (Unit {0})
unfolding load
put_slot head_slot q = λ s. ok tt (record s { head = q })
put_slot (next_of p) q = do n ← load p; store p (record n { next = q })

-- `HM_SUBTYPE_ID`
abbrev pub subtype_id : ℕ → ℕ
subtype_id magic = magic / 2 ^ 32 % 2 ^ 32

-- `HM_TYPE_ID`
abbrev pub type_id : ℕ → ℕ
type_id magic = magic % 2 ^ 32

abbrev pub list_magic : ℕ
list_magic = 1

abbrev pub list_node_magic : ℕ
list_node_magic = 2

abbrev pub refnode_magic : ℕ
refnode_magic = 1

-- The loop that moves `node_itr` and `node_prev` on by `rounds` nodes
unfoldable pub walk : (rounds : ℕ) → (itr before : Slot) → Cmd (Slot × Slot)
unfolding get_slot
walk zero itr before = pure (itr, before)
walk (suc k) itr before = do
  p ← get_slot itr
  if p == null then (λ _. fault) else walk k (next_of p) itr

unfoldable pub set_prev : (p prev : Ptr) → Cmd (Unit {0})
unfolding load
set_prev p prev = if p == null then pure tt else do n ← load p; store p (record n { prev = prev })

-- The body of `hm_list_insert` at a slot, for a list of plain nodes
unfoldable pub link : (node : Ptr) → (index : ℕ) → (itr before : Slot) → Cmd (Unit {0})
unfolding get_slot put_slot set_prev load
link node index itr before = do
  p ← get_slot itr
  n ← load node
  store node (record n { next = p })
  q ← get_slot before
  n ← load node
  store node (record n { prev = if index == 0 then null else q })
  p ← get_slot itr
  set_prev p node
  put_slot itr node

-- The same for a list of references: `fresh` is the node that `malloc` returns.
unfoldable pub link_ref : (fresh node : Ptr) → (index : ℕ) → (itr before : Slot) → Cmd (Unit {0})
unfolding get_slot put_slot set_prev
link_ref fresh node index itr before = do
  p ← get_slot itr
  q ← get_slot before
  store fresh (record {
    magic = refnode_magic * 2 ^ 32 + list_node_magic;
    data_size = 0;
    free_fn = default_free;
    prev = if index == 0 then null else q;
    next = p;
    node = node;
  })
  set_prev p fresh
  put_slot itr fresh

-- An index below 0 stands for the number of items; `index` is a `long`.
abbrev pub index_of : ℤ → ℕ → ℕ
index_of (pos i) n = i
index_of (negsuc i) n = n

abbrev count_up : Cmd ℤ
count_up s = ok (pos 0) (record s { n_items = (s.n_items + 1) % 2 ^ 32 })

-- The list's magic number says what is linked in; a list of neither kind is left as it is.
unfoldable pub attach :
    (sub : ℕ) → (fresh node : Ptr) → (index : ℕ) → (itr before : Slot) → Cmd (Unit {0})
unfolding link link_ref
attach sub fresh node i itr before =
    if sub == 0
    then link node i itr before
    else if sub == refnode_magic
    then link_ref fresh node i itr before
    else pure tt

unfoldable pub insert : (fresh node : Ptr) → ℤ → Cmd ℤ
unfolding walk attach
insert fresh node index s =
    let i = index_of index s.n_items in
    let sub = subtype_id s.magic in
    if ltb s.n_items (i % 2 ^ 32)
    then ok (negsuc 0) s
    else (do
      (itr, before) ← walk i head_slot head_slot
      attach sub fresh node i itr before
      count_up)
        s

unfoldable pub append : (fresh node : Ptr) → Cmd ℤ
append fresh node = insert fresh node (negsuc 0)
