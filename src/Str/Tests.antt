-- ===== src/Str/Tests.antt =====
-- The theorems on strings at concrete strings.
use hiemal.Base.{ℕ, ◌+◌, refl, ◌≡◌, none, some, List, [], ◌∷◌, arith}
use hiemal.Str.{Str, parse_int_range}
use hiemal.Str.Range.{parse_int_range-print}
use hiemal.Str.Copy.{StrHeap, strings_at, str_arr_copy_clear, str_arr_copy_m}
use hiemal.Str.CopyBack.{AreNew, str_arr_copy_m-clear}

-- "8-16"
parse_int_range-print_example : parse_int_range (56 ∷ 45 ∷ 49 ∷ 54 ∷ []) ≡ some (8, 16)
parse_int_range-print_example =
    parse_int_range-print (8 ∷ []) (1 ∷ 6 ∷ []) (omega arith, tt) (omega arith, (omega arith, tt))
      (omega arith) (omega arith)

-- "a" and "b"
abbrev strings : List Str
strings = (97 ∷ []) ∷ (98 ∷ []) ∷ []

abbrev fresh : ℕ → ℕ
fresh i = 50 + i

abbrev nothing : StrHeap
nothing p = none

fresh-AreNew : AreNew fresh nothing
fresh-AreNew = record { live = λ i. omega arith; free = λ i. refl; distinct = λ i j e. omega arith }

str_arr_copy_m-clear_example :
    (h1 : StrHeap) × (dest : List ℕ) × (h2 : StrHeap) × (str_arr_copy_m fresh strings nothing
      ≡ some (h1, dest))
    × (strings_at h1 dest ≡ some strings)
    × (str_arr_copy_clear h1 dest ≡ some h2)
    × ((p : ℕ) → h2 p ≡ none)
str_arr_copy_m-clear_example = str_arr_copy_m-clear fresh strings nothing fresh-AreNew
