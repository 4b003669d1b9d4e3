-- ===== src/Str/Equality.antt =====
-- The comparisons of src/util/str.c decide equality and membership.
use hiemal.Base.{
  ◌≡◌, ◌↔◌, ◌⊎◌, inl, inr, refl, ap, true, Option, none, some, List, [], ◌∷◌, length, arith,
  Bool-cases,
}
use hiemal.Str.{Str, eq_str, str_in_arr, str_arr_len, str_arr_eq_loop, str_arr_eq}

pub eq_str-true : (a b : Str) → eq_str a b ≡ true → a ≡ b
unfolding eq_str
eq_str-true [] [] e = refl
eq_str-true [] (d ∷ b) e = ground arith
eq_str-true (c ∷ a) [] e = ground arith
eq_str-true (c ∷ a) (d ∷ b) e = ground (arith, eq_str-true a b)

eq_str_self : (a : Str) → eq_str a a ≡ true
unfolding eq_str
eq_str_self [] = refl
eq_str_self (c ∷ a) = ground (arith, eq_str_self a)

pub eq_str_comm : (a b : Str) → eq_str a b ≡ eq_str b a
unfolding eq_str
eq_str_comm [] [] = refl
eq_str_comm [] (d ∷ b) = refl
eq_str_comm (c ∷ a) [] = refl
eq_str_comm (c ∷ a) (d ∷ b) = ground (arith, eq_str_comm a b)

loop-true : (xs ys : List Str) → length xs ≡ length ys → str_arr_eq_loop xs ys ≡ 1 → xs ≡ ys
unfolding str_arr_eq_loop
loop-true [] [] l e = refl
loop-true [] (y ∷ ys) l e = absurd (omega arith)
loop-true (x ∷ xs) [] l e = absurd (omega arith)
loop-true (x ∷ xs) (y ∷ ys) l e = ground (arith, eq_str-true x y, loop-true xs ys)

loop_self : (xs : List Str) → str_arr_eq_loop xs xs ≡ 1
unfolding str_arr_eq_loop
loop_self [] = refl
loop_self (x ∷ xs) = ground (arith, eq_str_self x, loop_self xs)

-- `str_arr_eq` returns 1 for equal arrays of strings, null ones among them, and for no others.
pub str_arr_eq-decides : (a b : Option (List Str)) → (str_arr_eq a b ≡ 1) ↔ (a ≡ b)
unfolding str_arr_eq str_arr_len
str_arr_eq-decides none none = (λ e. refl, λ e. refl)
str_arr_eq-decides none (some ys) = (λ e. ground arith, λ e. ground arith)
str_arr_eq-decides (some xs) none = (λ e. ground arith, λ e. ground arith)
str_arr_eq-decides (some xs) (some ys) =
    (λ e. ground (arith, loop-true xs ys), λ e. ground (arith, loop_self xs))

-- Whether a string stands in an array
abbrev pub InArr : Str → List Str → Type 0
InArr s [] = ⊥
InArr s (x ∷ xs) = (s ≡ x) ⊎ InArr s xs

str_in_arr_sound : (s : Str) (xs : List Str) → str_in_arr s xs ≡ true → InArr s xs
unfolding str_in_arr
str_in_arr_sound s [] e = ground arith
str_in_arr_sound s (x ∷ xs) e = elim (Bool-cases (eq_str s x)) [
  | inl t ↦ inl (eq_str-true s x t)
  | inr f ↦ inr (str_in_arr_sound s xs (ground arith))
]

str_in_arr_complete : (s : Str) (xs : List Str) → InArr s xs → str_in_arr s xs ≡ true
unfolding str_in_arr
str_in_arr_complete s [] h = absurd h
str_in_arr_complete s (x ∷ xs) (inl e) = ground (arith, eq_str_self s, ap (eq_str s) e)
str_in_arr_complete s (x ∷ xs) (inr h) = ground (arith, str_in_arr_complete s xs h)

-- `str_in_arr` holds for the strings of the array, and for no others.
pub str_in_arr-decides : (s : Str) (xs : List Str) → (str_in_arr s xs ≡ true) ↔ InArr s xs
str_in_arr-decides s xs = (str_in_arr_sound s xs, str_in_arr_complete s xs)
