-- ===== src/IntrusiveList/Access.antt =====
-- The rest of the list functions of src/core/common.c: access, iteration, removal, clearing.
use hiemal.Base.{
  ℕ, zero, suc, ◌+◌, ◌-◌, ◌%◌, ◌^◌, Bool, Option, none, some, ltb, ◌==◌, if◌then◌else◌,
}
use hiemal.Base.Int.{ℤ, pos, negsuc}
use hiemal.IntrusiveList.{
  Ptr, null, FreeFn, no_fn, default_free, client, Node, Cells, ListState, ok, out_of_fuel, Cmd,
  pure, ◌>>=◌, ◌>>◌, write, load, store, head_slot, next_of, get_slot, put_slot, subtype_id,
  refnode_magic, walk, set_prev, index_of,
}

-- The loop of `hm_list_at`
unfoldable pub advance : (rounds : ℕ) → Ptr → Cmd Ptr
unfolding load
advance zero p = pure p
advance (suc k) p = do n ← load p; advance k n.next

unfoldable pub at : ℤ → Cmd Ptr
unfolding advance load
at index s =
    let i = index_of index s.n_items in
    if ltb s.n_items (i % 2 ^ 32)
    then ok null s
    else (do
      p ← advance i s.head
      if subtype_id s.magic == refnode_magic then (do n ← load p; pure n.node) else pure p)
        s

unfoldable pub node_extract : Ptr → Cmd Ptr
unfolding load
node_extract p = do n ← load p; if subtype_id n.magic == refnode_magic then pure n.node else pure p

module _ {ℓ} {A : Type ℓ} (visit : Ptr → A → A) where
  -- `hm_list_itr` and `hm_list_itr_userdata`, for a function that works on data of its own. The round
  -- reads `next` after the call.
  unfoldable pub itr_loop : ℕ → Ptr → A → ListState → Option A
  itr_loop zero p a s = none
  itr_loop (suc k) p a s =
      if p == null
      then some a
      else elim (s.cell p) [ none ↦ none | some n ↦ itr_loop k n.next (visit p a) s ]

  unfoldable pub itr : A → ListState → Option A
  unfolding itr_loop
  itr a s = itr_loop (s.n_items + 1) s.head a s

module _ (matches : Ptr → Node → Bool) where
  -- `hm_list_find`, for a comparison that returns 0 where `matches` holds
  unfoldable pub find_loop : ℕ → Ptr → Cmd Ptr
  unfolding load
  find_loop zero p = λ s. out_of_fuel
  find_loop (suc k) p =
      if p == null
      then pure null
      else do n ← load p; if matches p n then pure p else find_loop k n.next

  unfoldable pub find : Cmd Ptr
  unfolding find_loop
  find s = find_loop (s.n_items + 1) s.head s

module _ (callback : ℕ → Ptr → Cells → Cells) where
  -- A call of a node's or a caller's free function; null does nothing.
  unfoldable pub call_free : FreeFn → Ptr → Cmd (Unit {0})
  unfolding write
  call_free no_fn p = pure tt
  call_free default_free p = λ s. ok tt (record s { cell = write s.cell p none })
  call_free (client f) p = λ s. ok tt (record s { cell = callback f p s.cell })

  unfoldable pub clear_loop : ℕ → Ptr → Cmd (Unit {0})
  unfolding load call_free
  clear_loop zero p = λ s. out_of_fuel
  clear_loop (suc k) p =
      if p == null then pure tt else do n ← load p; call_free n.free_fn p; clear_loop k n.next

  unfoldable pub clear : Cmd ℤ
  unfolding clear_loop
  clear = do
    p ← (λ s. ok s.head s)
    n ← (λ s. ok s.n_items s)
    clear_loop (n + 1) p
    (λ s. ok (pos 0) (record s { n_items = 0; head = null }))

  -- `(free_fn) ? (*free_fn)(old_node) : free(old_node)`
  abbrev pub dispose : FreeFn → Ptr → Cmd (Unit {0})
  dispose f p =
      call_free
        (elim f [ no_fn ↦ default_free | default_free ↦ default_free | client i ↦ client i ]) p

  abbrev pub count_down : Cmd ℤ
  count_down s = ok (pos 0) (record s { n_items = (s.n_items + (2 ^ 32 - 1)) % 2 ^ 32 })

  -- An index below 0 stands for `n_items - 1`, an `unsigned int`.
  abbrev pub last_of : ℤ → ℕ → ℕ
  last_of (pos i) n = i
  last_of (negsuc i) n = (n + (2 ^ 32 - 1)) % 2 ^ 32

  unfoldable pub remove : ℤ → FreeFn → Cmd ℤ
  unfolding walk load put_slot get_slot set_prev call_free
  remove index free_fn s =
      let i = last_of index s.n_items in
      if ltb s.n_items (i % 2 ^ 32)
      then ok (negsuc 0) s
      else (do
        (itr, before) ← walk i head_slot head_slot
        old ← get_slot itr
        n ← load old
        put_slot itr n.next
        p ← get_slot itr
        n ← load old
        set_prev p n.prev
        dispose free_fn old
        count_down)
          s

  -- The removal of `node_prev` in `hm_list_remove_where`, whose successor is `itr`. The store to
  -- `itr->prev` is made whether or not `itr` is null.
  unfoldable pub unlink : FreeFn → (node itr : Ptr) → Cmd (Unit {0})
  unfolding load put_slot call_free
  unlink free_fn node itr = do
    n ← load node
    (if n.prev == null then put_slot head_slot itr else put_slot (next_of n.prev) itr)
    m ← load itr
    n ← load node
    store itr (record m { prev = n.prev })
    dispose free_fn node
    count_down
    pure tt

  module _ (matches : Ptr → Node → Bool) where
    unfoldable pub remove_where_loop : FreeFn → ℕ → Ptr → Cmd ℤ
    unfolding load
    remove_where_loop free_fn zero p = λ s. out_of_fuel
    remove_where_loop free_fn (suc k) p = if p == null then pure (pos 0) else do
      n ← load p
      let rest = remove_where_loop free_fn k n.next
      if matches p n then unlink free_fn p n.next >> rest else rest

    unfoldable pub remove_where : FreeFn → Cmd ℤ
    unfolding remove_where_loop
    remove_where free_fn s = remove_where_loop free_fn (s.n_items + 1) s.head s
