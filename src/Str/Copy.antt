-- ===== src/Str/Copy.antt =====
-- The copies of arrays of strings of src/util/str.c, over a heap of the strings that are allocated. An array is its
-- pointers, with 0 for the null pointer behind the last; `none` is a walk past the end of an array, a store past it,
-- or memory freed that is not allocated.
use hiemal.Base.{
  ℕ, suc, ◌+◌, Option, none, some, List, [], ◌∷◌, length, set, replicate, ltb, ◌==◌, if◌then◌else◌,
  ◌>>=◌,
}
use hiemal.Str.{Str}

abbrev pub StrHeap : Type 0
StrHeap = ℕ → Option Str

abbrev pub put : StrHeap → ℕ → Option Str → StrHeap
put h p s q = if q == p then s else h q

-- The strings of an array
unfoldable pub strings_at : StrHeap → List ℕ → Option (List Str)
strings_at h [] = none
strings_at h (p ∷ ps) =
    let rest = strings_at h ps in
    if p == 0 then some [] else (h p >>= λ s. rest >>= λ l. some (s ∷ l))

-- `free` of each string up to the null pointer
unfoldable pub str_arr_copy_clear : StrHeap → List ℕ → Option StrHeap
str_arr_copy_clear h [] = none
str_arr_copy_clear h (p ∷ ps) =
    let rest = str_arr_copy_clear (put h p none) ps in
    if p == 0 then some h else (h p >>= λ _. rest)

-- `fresh`: the address that `calloc` returns for the string at an index
module _ (fresh : ℕ → ℕ) where
  -- The loop of `str_arr_copy`, from `i` on
  unfoldable pub copy_strings :
      (src : List Str) → (i : ℕ) → StrHeap → (dest : List ℕ) → Option (StrHeap × List ℕ)
  copy_strings [] i h dest = some (h, dest)
  copy_strings (s ∷ src) i h dest =
      let rest = copy_strings src (suc i) (put h (fresh i) (some s)) (set dest i (fresh i)) in
      if ltb i (length dest) then rest else none

  unfoldable pub str_arr_copy :
      (src : List Str) → StrHeap → (dest : List ℕ) → Option (StrHeap × List ℕ)
  unfolding copy_strings
  str_arr_copy src h dest = copy_strings src 0 h dest

  -- `str_arr_copy_m`, of an array that is not null; `calloc` fills its array with null pointers.
  unfoldable pub str_arr_copy_m : (src : List Str) → StrHeap → Option (StrHeap × List ℕ)
  unfolding str_arr_copy
  str_arr_copy_m src h = str_arr_copy src h (replicate (length src + 1) 0)
