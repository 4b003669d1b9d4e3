-- ===== src/Pulse/Connecting.antt =====
-- Where the names of io devices stand in the list of src/core/pulse.c.
use hiemal.Base.{
  ℕ, zero, suc, ◌+◌, ◌%◌, ◌^◌, ◌≤◌, ◌<◌, ◌≡◌, refl, ap, sym, ◌∙◌, true, false, inl, inr, none, some,
  List, [], ◌∷◌, ◌++◌, length, map, arith, Bool-cases, Bool, ◌⊎◌, ◌-◌,
}
use hiemal.Base.Int.{pos, negsuc}
use hiemal.Str.{Str, eq_str, str_in_arr}
use hiemal.Str.Equality.{eq_str-true, eq_str_comm}
use mathlib.Core.Bool.{true≢false}
use native.Mathlib.Decide.{dec_lt}
use native.Mathlib.Nat.{mod-eq_of_lt}
use hiemal.Pulse.{IoNode, get_dev_io_id, to_int}
use hiemal.Pulse.Server.{IoInfo, to_unsigned}
use hiemal.Pulse.Connect.{io_node_at}

abbrev pub names : List IoInfo → List Str
names [] = []
names (x ∷ xs) = x.name ∷ names xs

pub to_int-small : (n : ℕ) → n < 2 ^ 31 → to_int (n % 2 ^ 32) ≡ pos n
to_int-small n lt = ground (arith, mod-eq_of_lt {n = n} {m = 2 ^ 32})

-- Nodes that carry the names of what they were made from
module _ (node : IoInfo → IoNode) (named : (x : IoInfo) → (node x).io_device.name ≡ x.name)
    (name : Str) where
  test : (x : IoInfo) → eq_str (node x).io_device.name name ≡ eq_str name x.name
  test x = ap (λ s. eq_str s name) (named x) ∙ eq_str_comm x.name name

  -- A name that is not there leaves the search to the rest of the list.
  pub get_dev_io_id-skips :
      (xs : List IoInfo) (l : List IoNode) (i : ℕ)
      → str_in_arr name (names xs) ≡ false
      → get_dev_io_id (map node xs ++ l) name i ≡ get_dev_io_id l name (i + length xs)
  unfolding get_dev_io_id str_in_arr
  get_dev_io_id-skips [] l i e = ap (get_dev_io_id l name) (omega arith)
  get_dev_io_id-skips (x ∷ xs) l i e =
      let t : eq_str name x.name ≡ false = ground arith in
      let e' : str_in_arr name (names xs) ≡ false = ground arith in
      rw (test x, t) (get_dev_io_id-skips xs l (suc i) e' ∙ ap (get_dev_io_id l name) (omega arith))

  pub io_node_at-skips :
      (xs : List IoInfo) (l : List IoNode) (k : ℕ)
      → io_node_at (map node xs ++ l) (length xs + k) ≡ io_node_at l k
  unfolding io_node_at
  io_node_at-skips [] l k = ap (io_node_at l) (omega arith)
  io_node_at-skips (x ∷ xs) l k =
      let e : length (x ∷ xs) + k ≡ suc (length xs + k) = omega arith in
      rw e (io_node_at-skips xs l k)

  -- A name that is there is found, at the place of an item with that name.
  pub get_dev_io_id-finds :
      (xs : List IoInfo) (i : ℕ)
      → i + length xs < 2 ^ 31
      → str_in_arr name (names xs) ≡ true
      → (k : ℕ) × (x : IoInfo) × (k < length xs)
        × (get_dev_io_id (map node xs) name i ≡ pos (i + k))
        × (io_node_at (map node xs) k ≡ some (node x))
        × (x.name ≡ name)
  unfolding get_dev_io_id str_in_arr io_node_at
  get_dev_io_id-finds [] i few e = ground arith
  get_dev_io_id-finds (x ∷ xs) i few e = elim (Bool-cases (eq_str name x.name)) [
    | inl t ↦ (
      0,
      x,
      omega arith,
      rw (test x, t) (to_int-small i (omega arith) ∙ ap pos (omega arith)),
      refl,
      sym (eq_str-true name x.name t),
    )
    | inr f ↦
        let (k, y, lt, at, node_at, eq) =
          get_dev_io_id-finds xs (suc i) (omega arith) (ground arith) in
        (suc k, y, omega arith, rw (test x, f) (at ∙ ap pos (omega arith)), node_at, eq)
  ]

pub io_node_at-past : (l : List IoNode) (k : ℕ) → length l ≤ k → io_node_at l k ≡ none
unfolding io_node_at
io_node_at-past [] k le = refl
io_node_at-past (x ∷ l) zero le = absurd (omega arith)
io_node_at-past (x ∷ l) (suc k) le = io_node_at-past l k (omega arith)

-- Whether the node at a place of the list has a name
unfoldable pub is_named : List IoNode → ℕ → Str → Bool
is_named [] k name = false
is_named (n ∷ l) zero name = eq_str n.io_device.name name
is_named (n ∷ l) (suc k) name = is_named l k name

-- The place of the first node with a name; or 2^32 - 1, where there is none
pub record IsFirst (l : List IoNode) (name : Str) (id : ℕ) : Type 0 where
  pub here : is_named l id name ≡ true
  pub not_before : (j : ℕ) → j < id → is_named l j name ≡ false

pub record IsMissing (l : List IoNode) (name : Str) (id : ℕ) : Type 0 where
  pub nowhere : (j : ℕ) → is_named l j name ≡ false
  pub last_id : id ≡ 2 ^ 32 - 1

abbrev pub IsIdOf : List IoNode → Str → ℕ → Type 0
IsIdOf l name id = IsFirst l name id ⊎ IsMissing l name id

search :
    (l : List IoNode) (name : Str) (i : ℕ)
    → i + length l < 2 ^ 31
    → ((k : ℕ) × (k < length l) × IsFirst l name k × (get_dev_io_id l name i ≡ pos (i + k)))
      ⊎ (((j : ℕ) → is_named l j name ≡ false) × (get_dev_io_id l name i ≡ negsuc 0))
unfolding get_dev_io_id is_named
search [] name i few = inr (λ j. refl, refl)
search (n ∷ l) name i few = elim (Bool-cases (eq_str n.io_device.name name)) [
  | inl t ↦ inl (
    0,
    omega arith,
    record { here = t; not_before = λ j lt. absurd (omega arith) },
    rw t (to_int-small i (omega arith) ∙ ap pos (omega arith)),
  )
  | inr f ↦ elim (search l name (suc i) (omega arith)) [
    | inl (k, lt, first, e) ↦ inl (
      suc k,
      omega arith,
      record { here = first.here; not_before = λ j. later first.not_before f j },
      rw f (e ∙ ap pos (omega arith)),
    )
    | inr (none_there, e) ↦ inr (nowhere_at f none_there, rw f e)
  ]
]
  where
    later :
        {k : ℕ}
        → ((j : ℕ) → j < k → is_named l j name ≡ false)
        → eq_str n.io_device.name name ≡ false
        → (j : ℕ) → j < suc k
        → is_named (n ∷ l) j name ≡ false
    later h f zero lt = f
    later h f (suc j) lt = h j (omega arith)

    nowhere_at :
        eq_str n.io_device.name name ≡ false
        → ((j : ℕ) → is_named l j name ≡ false)
        → (j : ℕ) → is_named (n ∷ l) j name ≡ false
    nowhere_at f h zero = f
    nowhere_at f h (suc j) = h j

pub get_dev_io_id-IsIdOf :
    (l : List IoNode) (name : Str)
    → length l < 2 ^ 31
    → IsIdOf l name (to_unsigned (get_dev_io_id l name 0))
get_dev_io_id-IsIdOf l name few = elim (search l name 0 (omega arith)) [
  | inl (k, lt, first, e) ↦
      let id : to_unsigned (get_dev_io_id l name 0) ≡ k =
        ap to_unsigned e ∙ mod-eq_of_lt {n = 0 + k} {m = 2 ^ 32} (omega arith) ∙ omega arith in
      inl (rw id first)
  | inr (missing, e) ↦ inr (record { nowhere = missing; last_id = ap to_unsigned e })
]

-- There is one such id.
pub IsIdOf-unique :
    (l : List IoNode) (name : Str) (a b : ℕ) → IsIdOf l name a → IsIdOf l name b → a ≡ b
IsIdOf-unique l name a b (inl f) (inl g) = elim (dec_lt a b) [
  | yes lt ↦ absurd (true≢false (sym f.here ∙ g.not_before a lt))
  | no ge ↦ elim (dec_lt b a) [
    | yes lt ↦ absurd (true≢false (sym g.here ∙ f.not_before b lt))
    | no le ↦ omega arith
  ]
]
IsIdOf-unique l name a b (inl f) (inr m) = absurd (true≢false (sym f.here ∙ m.nowhere a))
IsIdOf-unique l name a b (inr m) (inl f) = absurd (true≢false (sym f.here ∙ m.nowhere b))
IsIdOf-unique l name a b (inr m) (inr n) = m.last_id ∙ sym n.last_id
