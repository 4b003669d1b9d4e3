-- ===== src/Copying/FromArray.antt =====
-- `hm_list_copy_array` of src/core/common.c puts a node for each item of an array at the end of a list.
use hiemal.Base.{
  ℕ, zero, suc, ◌+◌, ◌-◌, ◌*◌, ◌^◌, ◌≤◌, ◌<◌, ◌≡◌, ◌≢◌, refl, ap, sym, ◌∙◌, Option, some, List, [],
  ◌∷◌, ◌++◌, length, append-nil, append_assoc, length-append, arith, Bytes, slice, if◌then◌else◌,
  true, false, Bool-cases, inl, inr, ◌==◌, get_or-append_left, get_or-append_right,
}
use mathlib.Core.Path.{subst}
use native.Mathlib.Decide.{dec_lt, ℕ_discrete}
use hiemal.Base.Int.{pos, negsuc}
use hiemal.IntrusiveList.{
  Ptr, null, default_free, Node, Cells, ListState, ok, write, subtype_id, append,
}
use hiemal.IntrusiveList.Chain.{IsList, Linked, at, prev_at}
use hiemal.IntrusiveList.Clear.{AreFree, clear-frees}
use hiemal.IntrusiveList.Insert.Places.{insert_at}
use hiemal.IntrusiveList.Insert.Listed.{insert-listed}
use hiemal.Array.{Array}
use native.Mathlib.Nat.{mul-le-mul_right}
use hiemal.Array.Valid.{IsArray, bytes-le}
use hiemal.Copying.{Data, overwrites, source_of, put_data, copy_items, list_copy_array}

insert_at-end : (p : Ptr) (xs : List Ptr) → insert_at (length xs) p xs ≡ xs ++ (p ∷ [])
insert_at-end p [] = refl
insert_at-end p (x ∷ xs) = ap (λ l. x ∷ l) (insert_at-end p xs)

-- A cell that no node of the list is in can be written.
write-IsList :
    {s : ListState} {xs : List Ptr} (p : Ptr) (n : Option Node)
    → IsList s xs
    → ((j : ℕ) → j < length xs → at xs j ≢ p)
    → IsList (record s { cell = write s.cell p n }) xs
unfolding write
write-IsList {s = s} {xs = xs} p n v other = record {
  first = v.first;
  count = v.count;
  small = v.small;
  live = v.live;
  linked = λ i lt.
      subst (λ o. Linked o (prev_at xs i) (at xs (suc i)))
        (let e : s.cell (at xs i) ≡ write s.cell p n (at xs i) = ground (arith, other i lt) in e)
        (v.linked i lt);
  distinct = v.distinct;
}

other-append :
    (xs : List Ptr) (p q : Ptr) (m : ℕ)
    → ((j : ℕ) → j < length xs → at xs j ≢ q)
    → p ≢ q
    → m < length (xs ++ (p ∷ []))
    → at (xs ++ (p ∷ [])) m ≢ q
other-append xs p q m h ne lt = elim (dec_lt m (length xs)) [
  | yes lt' ↦ λ e. h m lt' (sym (get_or-append_left xs (p ∷ []) m null lt') ∙ e)
  | no ge ↦
      let z : m - length xs ≡ 0 = omega (arith, length-append xs (p ∷ [])) in
      λ e.
        ne (
          ap (at (p ∷ [])) (sym z) ∙ sym (get_or-append_right xs (p ∷ []) m null (omega arith)) ∙ e)
]

-- The addresses of the nodes for the items from the index `i` on
abbrev pub fresh_from : (ℕ → Ptr) → (rounds i : ℕ) → List Ptr
fresh_from fresh zero i = []
fresh_from fresh (suc k) i = fresh i ∷ fresh_from fresh k (suc i)

-- The addresses that `malloc` returns are those of no node of the list, and different.
pub record AreFresh (fresh : ℕ → Ptr) (xs : List Ptr) : Type 0 where
  pub live : (i : ℕ) → fresh i ≢ null
  pub other : (i j : ℕ) → j < length xs → at xs j ≢ fresh i
  pub distinct : (i j : ℕ) → fresh i ≡ fresh j → i ≡ j

-- The nodes for the items from `i` on hold those items, and no other data has changed.
pub record AreCopied (fresh : ℕ → Ptr) (a : Array) (k i : ℕ) (held held' : Data) : Type 0 where
  pub copied :
      (j : ℕ) → i ≤ j → j < i + k → held' (fresh j) ≡ slice a.buf (j * a.item_size) a.item_size
  pub kept : (p : Ptr) → ((j : ℕ) → i ≤ j → j < i + k → fresh j ≢ p) → held' p ≡ held p

module _ (fresh refs : ℕ → Ptr) (junk : ℕ → Node) (a : Array) where
  -- One round adds a node to the end of the list.
  append-last :
      {s : ListState} {xs : List Ptr} (i : ℕ)
      → IsList s xs
      → fresh i ≢ null
      → ((j : ℕ) → j < length xs → at xs j ≢ fresh i)
      → subtype_id s.magic ≡ 0
      → suc (length xs) < 2 ^ 31
      → let s1 : ListState = record s {
        cell = write s.cell (fresh i) (some (record (junk i) { free_fn = default_free }));
      } in
        (s' : ListState) × (append (refs i) (fresh i) s1 ≡ ok (pos 0) s')
        × IsList s' (xs ++ (fresh i ∷ []))
        × (subtype_id s'.magic ≡ 0)
  unfolding append write
  append-last {s = s} {xs = xs} i v live other sub small =
      let n = record (junk i) { free_fn = default_free } in
      let s1 : ListState = record s { cell = write s.cell (fresh i) (some n) } in
      let v1 = write-IsList (fresh i) (some n) v other in
      let (s', e, w) =
        insert-listed v1 (fresh i) (refs i) n (negsuc 0) live (ground arith) other sub small
          (omega (arith, v.count)) in
      (
        s',
        e,
        subst (IsList s') (ap (λ k. insert_at k (fresh i) xs) v.count ∙ insert_at-end (fresh i) xs)
            w.listed,
        ap subtype_id w.magic ∙ sub,
      )

  fresh_live : (i : ℕ) → fresh i ≢ null → (fresh i == null) ≡ false
  fresh_live i live = ground (arith, live)

  some_source :
      (i : ℕ) → 0 < length a.buf → source_of a i ≡ some (slice a.buf (i * a.item_size) a.item_size)
  some_source i filled = let e : (length a.buf == 0) ≡ false = ground (arith, filled) in rw e refl

  put-same : (held : Data) (p : Ptr) (b : Bytes) → put_data fresh refs junk held p b p ≡ b
  put-same held p b = ground arith

  put-other :
      (held : Data) (p : Ptr) (b : Bytes) (q : Ptr)
      → p ≢ q
      → put_data fresh refs junk held p b q ≡ held q
  put-other held p b q ne = ground (arith, ne)

  copy_items-appends :
      (k i : ℕ) (held : Data) {s : ListState} {xs : List Ptr}
      → IsList s xs
      → subtype_id s.magic ≡ 0
      → length xs + k < 2 ^ 31
      → ((j : ℕ) → fresh j ≢ null)
      → ((j m : ℕ) → fresh j ≡ fresh m → j ≡ m)
      → ((j m : ℕ) → i ≤ j → m < length xs → at xs m ≢ fresh j)
      → (0 < k → 0 < length a.buf)
      → (held' : Data) × (s' : ListState) × (copy_items fresh refs junk a k i held s ≡ ok held' s')
        × IsList s' (xs ++ fresh_from fresh k i)
        × AreCopied fresh a k i held held'
  unfolding copy_items
  copy_items-appends zero i held {s = s} {xs = xs} v sub small live inj other filled = (
    held,
    s,
    refl,
    subst (IsList s) (sym (append-nil xs)) v,
    record { copied = λ j h l. absurd (omega arith); kept = λ p h. refl },
  )
  copy_items-appends (suc k) i held {s = s} {xs = xs} v sub small live inj other filled =
      let (s1, e1, v1, sub1) =
        append-last i v (live i) (λ j. other i j (omega arith)) sub (omega arith) in
      let held1 =
        put_data fresh refs junk held (fresh i) (slice a.buf (i * a.item_size) a.item_size) in
      let l = length-append xs (fresh i ∷ []) in
      let (held', s', e, v', w) =
        copy_items-appends k (suc i) held1 v1 sub1 (omega (arith, l)) live inj
          (λ j m h lt.
            other-append xs (fresh i) (fresh j) m (λ m. other j m (omega arith))
              (λ eq. omega (arith, inj i j eq)) lt)
          (λ _. filled (omega arith)) in
      (
        held',
        s',
        rw (copy_items, fresh_live i (live i), some_source i (filled (omega arith)), e1) e,
        subst (IsList s') (append_assoc xs (fresh i ∷ []) (fresh_from fresh k (suc i))) v',
        record {
          copied = λ j h lt. elim (ℕ_discrete j i) [
            | yes eq ↦
                ap (λ j. held' (fresh j)) eq
                ∙ w.kept (fresh i) (λ m g _ e. omega (arith, inj m i e))
                ∙ put-same held (fresh i) (slice a.buf (i * a.item_size) a.item_size)
                ∙ ap (λ j. slice a.buf (j * a.item_size) a.item_size) (sym eq)
            | no ne ↦ w.copied j (omega arith) (omega arith)
          ];
          kept = λ p h.
              w.kept p (λ j g lt. h j (omega arith) (omega arith))
              ∙ put-other held (fresh i) (slice a.buf (i * a.item_size) a.item_size) p
                  (h i (omega arith) (omega arith));
        },
      )

-- The nodes that the copy leaves in the list
abbrev pub remaining : (flags : ℕ) → List Ptr → List Ptr
remaining flags xs = if overwrites flags then [] else xs

-- `hm_list_copy_array` of a well-formed array into a well-formed list of plain nodes, for addresses that
-- `malloc` may return, returns 0, and the list is well formed: a node for each item, in order, stands behind the
-- nodes that it had, or alone where the flag says to overwrite, which takes that its nodes are all for `free`. The
-- nodes hold the items, and no other data changes.
pub list_copy_array-appends :
    (fresh refs : ℕ → Ptr) (junk : ℕ → Node) (callback : ℕ → Ptr → Cells → Cells) (a : Array)
    (flags : ℕ) (held : Data) {s : ListState} {xs : List Ptr}
    → IsArray a
    → 0 < a.item_size
    → IsList s xs
    → subtype_id s.magic ≡ 0
    → (overwrites flags ≡ true → AreFree s xs)
    → AreFresh fresh (remaining flags xs)
    → length xs + a.n_items < 2 ^ 31
    → (held' : Data) × (s' : ListState) × (list_copy_array fresh refs junk callback a flags held s
        ≡ ok (held', pos 0) s')
      × IsList s' (remaining flags xs ++ fresh_from fresh a.n_items 0)
      × AreCopied fresh a a.n_items 0 held held'
unfolding list_copy_array
list_copy_array-appends fresh refs junk callback a flags held {s = s} {xs = xs} w some_size v sub
      free new small =
    let filled : 0 < a.n_items → 0 < length a.buf =
      λ lt. omega (arith, bytes-le w, mul-le-mul_right a.item_size lt) in
    elim (Bool-cases (overwrites flags)) [
      | inl e ↦
          let (s1, e1, c) = clear-frees callback v (free e) in
          let e0 : remaining flags xs ≡ [] = rw e refl in
          let (held', s', e2, v', k) =
            copy_items-appends fresh refs junk a a.n_items 0 held c.empty
              (ap subtype_id c.magic ∙ sub) (omega arith) new.live new.distinct
              (λ j m _ lt. elim lt [ ]) filled in
          (held', s', rw (list_copy_array, e, e1, e2) refl, rw e0 v', k)
      | inr e ↦
          let e0 : remaining flags xs ≡ xs = rw e refl in
          let (held', s', e2, v', k) =
            copy_items-appends fresh refs junk a a.n_items 0 held v sub small new.live new.distinct
              (λ j m _. subst (λ xs. m < length xs → at xs m ≢ fresh j) e0 (new.other j m))
              filled in
          (held', s', rw (list_copy_array, e, e2) refl, rw e0 v', k)
    ]
