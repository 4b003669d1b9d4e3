-- ===== src/IntrusiveList/Life/Grown.antt =====
-- What becomes of the nodes between the initialisation of a list and its end, in src/core/common.c.
use hiemal.Base.{
  ℕ, suc, ◌<◌, ◌≡◌, ◌≢◌, ◌^◌, refl, ap, sym, ◌∙◌, none, some, List, [], ◌∷◌, ◌++◌, length, arith,
  ◌-◌, length-append, get_or-append_left, get_or-append_right, append_assoc, append-nil,
}
use mathlib.Core.Option.{some-injective}
use mathlib.Core.Path.{subst}
use hiemal.Base.Int.{pos, negsuc}
use hiemal.IntrusiveList.{Ptr, null, default_free, Node, Cells, ListState, ok, subtype_id, append}
use hiemal.IntrusiveList.Chain.{IsList, at}
use hiemal.IntrusiveList.Clear.{AreFree, empty-IsList, clear-frees}
use hiemal.IntrusiveList.Insert.Places.{insert_at}
use hiemal.IntrusiveList.Insert.Listed.{IsInserted, insert-listed}
use hiemal.IntrusiveList.Life.{list_init, list_node_init, list_delete, append_all}

-- Different live nodes, all for `free`
pub record AreReady (s : ListState) (zs : List Ptr) : Type 0 where
  pub live : (i : ℕ) → i < length zs → at zs i ≢ null
  pub plain :
      (i : ℕ)
      → i < length zs
      → (n : Node) × (s.cell (at zs i) ≡ some n) × (n.free_fn ≡ default_free)
  pub apart : (i j : ℕ) → i < length zs → j < length zs → at zs i ≡ at zs j → i ≡ j

-- Nodes that are not among `zs` are as they were.
abbrev pub AreKept : List Ptr → Cells → Cells → Type 0
AreKept zs c c' =
    (a : Ptr) (m : Node)
    → a ≢ null
    → ((j : ℕ) → j < length zs → at zs j ≢ a)
    → c a ≡ some m
    → c' a ≡ some m

-- The list after some of the nodes `zs` have been appended
record IsGrown (s s' : ListState) (zs : List Ptr) : Type 0 where
  listed : IsList s' zs
  magic : s'.magic ≡ s.magic
  ready : AreReady s' zs
  kept : AreKept zs s.cell s'.cell

insert_at-end : (p : Ptr) (xs : List Ptr) → insert_at (length xs) p xs ≡ xs ++ p ∷ []
insert_at-end p [] = refl
insert_at-end p (x ∷ xs) = ap (λ ys. x ∷ ys) (insert_at-end p xs)

-- `p` stands behind `xs` in `zs`.
module _ {s : ListState} (xs : List Ptr) (p : Ptr) (ps zs : List Ptr) (e : xs ++ p ∷ ps ≡ zs)
    (v : IsList s xs) (r : AreReady s zs) where
  here : length xs < length zs
  here = omega (arith, length-append xs (p ∷ ps), ap length e)

  at-here : at zs (length xs) ≡ p
  at-here =
      let z : length xs - length xs ≡ 0 = omega arith in
      ap (λ ys. at ys (length xs)) (sym e)
      ∙ get_or-append_right xs (p ∷ ps) (length xs) null (omega arith)
      ∙ rw z refl

  at-left : (j : ℕ) → j < length xs → at zs j ≡ at xs j
  at-left j lt = ap (λ ys. at ys j) (sym e) ∙ get_or-append_left xs (p ∷ ps) j null lt

  new_apart : (j : ℕ) → j < length xs → at xs j ≢ p
  new_apart j lt q =
      omega
        (arith, r.apart j (length xs) (omega (arith, here)) here (at-left j lt ∙ q ∙ sym at-here))

  append-IsInserted :
      (fresh : Ptr)
      → subtype_id s.magic ≡ 0
      → suc (length xs) < 2 ^ 31
      → (s' : ListState) × (append fresh p s ≡ ok (pos 0) s') × IsInserted s s' p (length xs) xs
  unfolding append
  append-IsInserted fresh sub small =
      let (n, c, _) = r.plain (length xs) here in
      let (s', q, w) =
        insert-listed v p fresh n (negsuc 0) (λ z. r.live (length xs) here (at-here ∙ z))
          (ap s.cell (sym at-here) ∙ c) new_apart sub small (omega (arith, v.count)) in
      (s', q, subst (λ k. IsInserted s s' p k xs) v.count w)

  -- The nodes stay ready.
  ready-kept : {s' : ListState} → IsInserted s s' p (length xs) xs → AreReady s' zs
  ready-kept w = record {
    live = r.live;
    plain = λ i lt.
        let (n, c, f) = r.plain i lt in
        let (n', c', f') = w.nodes (at zs i) n (r.live i lt) c in (n', c', f' ∙ f);
    apart = r.apart;
  }

  -- So do the others.
  others-kept :
      {s' : ListState} {c : Cells}
      → IsInserted s s' p (length xs) xs
      → AreKept zs s'.cell c
      → AreKept zs s.cell c
  others-kept w k a m live out q = k a m live out (
      w.outside a m live (λ z. out (length xs) here (at-here ∙ sym z))
        (λ j lt z. out j (omega (arith, here)) (at-left j lt ∙ z)) q)

module _ (fresh : Ptr) where
  append_all-IsGrown :
      {s : ListState} (xs ps zs : List Ptr)
      → xs ++ ps ≡ zs
      → IsList s xs
      → AreReady s zs
      → subtype_id s.magic ≡ 0
      → length zs < 2 ^ 31
      → (s' : ListState) × (append_all fresh ps s ≡ ok tt s') × IsGrown s s' zs
  unfolding append_all
  append_all-IsGrown {s} xs [] zs e v r sub small = (
    s,
    refl,
    record {
      listed = subst (IsList s) (sym (append-nil xs) ∙ e) v;
      magic = refl;
      ready = r;
      kept = λ a m live out c. c;
    },
  )
  append_all-IsGrown {s} xs (p ∷ ps) zs e v r sub small =
      let (s1, e1, w) =
        append-IsInserted xs p ps zs e v r fresh sub (omega (arith, here xs p ps zs e v r)) in
      let (s2, e2, g) =
        append_all-IsGrown {s = s1} (xs ++ p ∷ []) ps zs (append_assoc xs (p ∷ []) ps ∙ e)
          (subst (IsList s1) (insert_at-end p xs) w.listed) (ready-kept xs p ps zs e v r w)
          (ap subtype_id w.magic ∙ sub) small in
      (
        s2,
        rw e1 e2,
        record {
          listed = g.listed;
          magic = g.magic ∙ w.magic;
          ready = g.ready;
          kept = others-kept xs p ps zs e v r w g.kept;
        },
      )

AreReady-AreFree : {s : ListState} {zs : List Ptr} → AreReady s zs → AreFree s zs
AreReady-AreFree r = λ i n lt c.
    let (n', c', f') = r.plain i lt in ap (λ x. x.free_fn) (some-injective n n' (sym c ∙ c')) ∙ f'

-- Different live nodes that `HM_LIST_NODE_INIT` has initialised
pub record AreInitialised (s : ListState) (zs : List Ptr) : Type 0 where
  pub live : (i : ℕ) → i < length zs → at zs i ≢ null
  pub node : (i : ℕ) → i < length zs → (n : Node) × (s.cell (at zs i) ≡ some (list_node_init n))
  pub apart : (i j : ℕ) → i < length zs → j < length zs → at zs i ≡ at zs j → i ≡ j

AreInitialised-AreReady :
    {s : ListState} {zs : List Ptr} → AreInitialised s zs → AreReady (list_init s) zs
unfolding list_init list_node_init
AreInitialised-AreReady r = record {
  live = r.live;
  plain = λ i lt. let (n, c) = r.node i lt in (list_node_init n, c, refl);
  apart = r.apart;
}

-- After `HM_LIST_INIT` of a list, different live nodes that `HM_LIST_NODE_INIT` has initialised, fewer than
-- 2 ^ 31, can be appended one after the other: the list is then well formed, with the nodes in that order.
-- `hm_list_delete` of it returns 0 and has freed each of the nodes; every other node is as it was.
pub list_init-append-delete :
    (callback : ℕ → Ptr → Cells → Cells) (fresh : Ptr) (s : ListState) (zs : List Ptr)
    → AreInitialised s zs
    → length zs < 2 ^ 31
    → (s1 : ListState) × (s2 : ListState) × (append_all fresh zs (list_init s) ≡ ok tt s1)
      × IsList s1 zs
      × (list_delete callback s1 ≡ ok (pos 0) s2)
      × ((i : ℕ) → i < length zs → s2.cell (at zs i) ≡ none)
      × AreKept zs s.cell s2.cell
unfolding list_init list_delete
list_init-append-delete callback fresh s zs r small =
    let (s1, e1, g) =
      append_all-IsGrown fresh {s = list_init s} [] zs zs refl
        (empty-IsList (list_init s) refl refl) (AreInitialised-AreReady r) refl small in
    let (s2, e2, f) = clear-frees callback g.listed (AreReady-AreFree g.ready) in
    (
      s1,
      s2,
      e1,
      g.listed,
      rw e2 refl,
      λ i lt. f.cells.freed i (omega arith) lt,
      λ a m live out c. f.cells.kept a (λ i _. out i) ∙ g.kept a m live out c,
    )
