-- ===== src/Str.antt =====
-- src/util/str.c: strings as lists of character codes, arrays of strings as lists, with `none` for a null
-- array.
pub mod Range
pub mod Copy
pub mod CopyBack
pub mod Equality
mod Tests
use hiemal.Base.{
  ℕ, zero, suc, ◌+◌, ◌-◌, ◌*◌, Bool, true, false, not, ◌||◌, Option, none, some, List, [], ◌∷◌,
  length, take, drop, ltb, leb, ◌==◌, if◌then◌else◌,
}
use hiemal.Base.Int.{ℤ, pos, negsuc, eqb_ℤ}

abbrev pub Str : Type 0
Str = List ℕ

-- '-'
abbrev pub dash : ℕ
dash = 45

unfoldable pub is_int_str : Str → Bool
is_int_str [] = true
is_int_str (c ∷ cs) = let rest = is_int_str cs in if ltb c 48 || ltb 57 c then false else rest

-- `strchr` and `strrchr`: the index of the first and of the last place of a character
unfoldable pub strchr : Str → ℕ → Option ℕ
strchr [] ch = none
strchr (c ∷ cs) ch =
    let rest = strchr cs ch in
    if c == ch then some 0 else elim rest [ none ↦ none | some i ↦ some (suc i) ]

unfoldable pub strrchr : Str → ℕ → Option ℕ
strrchr [] ch = none
strrchr (c ∷ cs) ch = elim (strrchr cs ch) [
  | none ↦ if c == ch then some 0 else none
  | some i ↦ some (suc i)
]

-- `atoi` of a string of digits; the functions below call it with no other.
unfoldable pub atoi_from : ℕ → Str → ℕ
atoi_from acc [] = acc
atoi_from acc (c ∷ cs) = atoi_from (10 * acc + (c - 48)) cs

abbrev pub atoi : Str → ℕ
atoi = atoi_from 0

-- What follows the test for a single dash, at `i`
unfoldable pub is_ordered : Str → ℕ → Bool
is_ordered s i =
    if not (is_int_str (take i s)) || not (is_int_str (drop (suc i) s))
    then false
    else if ltb (atoi (drop (suc i) s)) (atoi (take i s))
    then false
    else true

unfoldable pub is_int_range : Str → Bool
is_int_range s = elim (strchr s dash) [
  | none ↦ false
  | some i ↦ elim (strrchr s dash) [
    | none ↦ false
    | some j ↦ if i == j then is_ordered s i else false
  ]
]

-- The two numbers that `parse_int_range` stores; `none` is the return value -1.
unfoldable pub parse_int_range : Str → Option (ℕ × ℕ)
parse_int_range s =
    if is_int_range s
    then elim (strchr s dash) [
      | none ↦ none
      | some i ↦ some (atoi (take i s), atoi (drop (suc i) s))
    ]
    else none

-- `strcmp(a, b) == 0`
unfoldable pub eq_str : Str → Str → Bool
eq_str [] [] = true
eq_str [] (d ∷ ds) = false
eq_str (c ∷ cs) [] = false
eq_str (c ∷ cs) (d ∷ ds) = let rest = eq_str cs ds in if c == d then rest else false

unfoldable pub str_in_arr : Str → List Str → Bool
unfolding eq_str
str_in_arr s [] = false
str_in_arr s (x ∷ xs) = let rest = str_in_arr s xs in if eq_str s x then true else rest

unfoldable pub str_arr_len : Option (List Str) → ℤ
str_arr_len none = negsuc 0
str_arr_len (some xs) = pos (length xs)

-- The loop of `str_arr_eq`, for arrays of one length
unfoldable pub str_arr_eq_loop : List Str → List Str → ℕ
str_arr_eq_loop [] ys = 1
str_arr_eq_loop (x ∷ xs) [] = 0
str_arr_eq_loop (x ∷ xs) (y ∷ ys) =
    let rest = str_arr_eq_loop xs ys in if eq_str x y then rest else 0

unfoldable pub str_arr_eq : Option (List Str) → Option (List Str) → ℕ
unfolding str_arr_len
str_arr_eq a b =
    if eqb_ℤ (str_arr_len a) (str_arr_len b)
    then elim a [ none ↦ 1 | some xs ↦ elim b [ none ↦ 0 | some ys ↦ str_arr_eq_loop xs ys ] ]
    else 0
