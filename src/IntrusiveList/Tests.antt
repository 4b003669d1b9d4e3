-- ===== src/IntrusiveList/Tests.antt =====
-- The list theorems at concrete lists.
use hiemal.Base.{
  ℕ, zero, suc, ◌<◌, ◌≡◌, ◌≢◌, refl, ap, sym, Bool, none, some, List, [], ◌∷◌, arith, ◌==◌,
  if◌then◌else◌,
}
use mathlib.Core.Option.{some-injective}
use hiemal.Base.Int.{pos}
use hiemal.IntrusiveList.{Ptr, null, default_free, Node, Cells, ListState, ok, insert}
use hiemal.IntrusiveList.Access
use hiemal.IntrusiveList.Life.{list_init, list_node_init, list_delete, append_all}
use hiemal.IntrusiveList.Life.Grown.{AreInitialised, AreKept, list_init-append-delete}
use hiemal.IntrusiveList.Clear.{AreFree}
use hiemal.IntrusiveList.Chain.{IsList, Linked, at, prev_at}
use hiemal.IntrusiveList.Walk.{find-first_match}
use hiemal.IntrusiveList.Insert.Listed.{insert-listed, IsInserted}

-- Two nodes at 10 and 20, and one at 30 that is in no list
abbrev pub plain_node : (prev next : Ptr) → Node
plain_node p q = record {
  magic = 2;
  data_size = 4;
  free_fn = default_free;
  prev = p;
  next = q;
  node = null;
}

abbrev pub first_node : Node
first_node = plain_node null 20

abbrev pub second_node : Node
second_node = plain_node 10 null

abbrev third_node : Node
third_node = plain_node null null

abbrev cells : Cells
cells a =
    if a == 10
    then some first_node
    else if a == 20
    then some second_node
    else if a == 30
    then some third_node
    else none

abbrev pub two_nodes : ListState
two_nodes = record { magic = 1; head = 10; n_items = 2; cell = cells }

abbrev pub two : List Ptr
two = 10 ∷ 20 ∷ []

pub below_two : (P : ℕ → Type 0) → P 0 → P 1 → (i : ℕ) → i < 2 → P i
below_two P a b zero lt = a
below_two P a b (suc zero) lt = b
below_two P a b (suc (suc i)) lt = absurd (omega arith)

module _ (a b : Ptr) (ne : a ≢ b) where
  abbrev pair : List Ptr
  pair = a ∷ b ∷ []

  pair-distinct : (i j : ℕ) → i < 2 → j < 2 → at pair i ≡ at pair j → i ≡ j
  pair-distinct i j li lj =
      below_two (λ i. (j : ℕ) → j < 2 → at pair i ≡ at pair j → i ≡ j)
        (below_two (λ j. at pair 0 ≡ at pair j → 0 ≡ j) (λ e. refl) (λ e. absurd (ne e)))
        (below_two (λ j. at pair 1 ≡ at pair j → 1 ≡ j) (λ e. absurd (ne (sym e))) (λ e. refl)) i li
        j lj

pub two_nodes-IsList : IsList two_nodes two
two_nodes-IsList = record {
  first = refl;
  count = refl;
  small = omega arith;
  live = below_two (λ i. at two i ≢ null) (omega arith) (omega arith);
  linked =
      below_two (λ i. Linked (two_nodes.cell (at two i)) (prev_at two i) (at two (suc i)))
        (refl, refl) (refl, refl);
  distinct = pair-distinct 10 20 (omega arith);
}

abbrev is_last : Ptr → Node → Bool
is_last p n = p == 20

find-first_match_example : Access.find is_last two_nodes ≡ ok 20 two_nodes
find-first_match_example = find-first_match is_last two_nodes-IsList

insert-listed_example :
    (s : ListState) × (insert 0 30 (pos 1) two_nodes ≡ ok (pos 0) s)
    × IsInserted two_nodes s 30 1 two
insert-listed_example =
    insert-listed two_nodes-IsList 30 0 third_node (pos 1) (omega arith) refl
      (below_two (λ j. at two j ≢ 30) (omega arith) (omega arith)) refl (omega arith) (omega arith)

abbrev pub no_callback : ℕ → Ptr → Cells → Cells
no_callback f p c = c

pub two_nodes-AreFree : AreFree two_nodes two
two_nodes-AreFree i n lt =
    below_two (λ i. two_nodes.cell (at two i) ≡ some n → n.free_fn ≡ default_free)
      (λ e. ap (λ n. n.free_fn) (sym (some-injective first_node n e)))
      (λ e. ap (λ n. n.free_fn) (sym (some-injective second_node n e))) i lt

-- The nodes at 10 and 20 and the one at 30, freshly initialised
abbrev fresh_nodes : ListState
fresh_nodes = record two_nodes {
  cell = λ a.
      if a == 10
      then some (list_node_init first_node)
      else if a == 20
      then some (list_node_init second_node)
      else if a == 30
      then some third_node
      else none;
}

two_nodes-AreInitialised : AreInitialised fresh_nodes two
two_nodes-AreInitialised = record {
  live = below_two (λ i. at two i ≢ null) (omega arith) (omega arith);
  node =
      below_two (λ i. (n : Node) × (fresh_nodes.cell (at two i) ≡ some (list_node_init n)))
        (first_node, refl) (second_node, refl);
  apart = two_nodes-IsList.distinct;
}

list_init-append-delete_example :
    (s1 : ListState) × (s2 : ListState) × (append_all 0 two (list_init fresh_nodes) ≡ ok tt s1)
    × IsList s1 two
    × (list_delete no_callback s1 ≡ ok (pos 0) s2)
    × ((i : ℕ) → i < 2 → s2.cell (at two i) ≡ none)
    × AreKept two fresh_nodes.cell s2.cell
list_init-append-delete_example =
    list_init-append-delete no_callback 0 fresh_nodes two two_nodes-AreInitialised (omega arith)
