-- ===== src/Unicode.antt =====
-- src/util/unicode.c: conversion of ASCII strings to UTF-16 and UTF-32. A string is a list of character codes,
-- and the result an area of code units, into which nothing is stored beyond its end.
use hiemal.Base.{
  ℕ, suc, ◌+◌, ◌/◌, ◌%◌, ◌<◌, ◌≡◌, ◌≢◌, refl, ap, ◌∙◌, Bool, true, false, List, [], ◌∷◌, length,
  set, ltb, ◌==◌, if◌then◌else◌, arith, Bytes, memcpy, Bool-cases, inl, inr,
}
use hiemal.Base.Int.{ℤ, pos, negsuc}

-- `(x & 0x80) == 0`
abbrev pub is_ascii : ℕ → Bool
is_ascii x = x / 128 % 2 == 0

unfoldable pub ascii_loop : Bytes → (i : ℕ) → (rest : List ℕ) → ℤ × Bytes
ascii_loop res i [] = (pos i, res)
ascii_loop res i (c ∷ cs) =
    let next = ascii_loop (set res i c) (suc i) cs in if is_ascii c then next else (negsuc 0, res)

unfoldable pub ascii_to_utf16 : List ℕ → Bytes → ℤ × Bytes
ascii_to_utf16 src res = ascii_loop res 0 src

unfoldable pub ascii_to_utf32 : List ℕ → Bytes → ℤ × Bytes
ascii_to_utf32 src res = ascii_loop res 0 src

-- `size` is `sizeof(wchar_t)`.
unfoldable pub ascii_to_wchar : (size : ℕ) → List ℕ → Bytes → ℤ × Bytes
ascii_to_wchar size src res =
    if size == 2
    then ascii_to_utf16 src res
    else if size == 4
    then ascii_to_utf32 src res
    else (negsuc 0, res)

-- The characters before the first that is not below 128, and whether there is none
abbrev pub ascii_prefix : List ℕ → List ℕ
ascii_prefix [] = []
ascii_prefix (c ∷ cs) = let rest = ascii_prefix cs in if ltb c 128 then c ∷ rest else []

abbrev pub all_ascii : List ℕ → Bool
all_ascii [] = true
all_ascii (c ∷ cs) = let rest = all_ascii cs in if ltb c 128 then rest else false

abbrev pub AllBytes : List ℕ → Type 0
AllBytes [] = Unit
AllBytes (c ∷ cs) = (c < 256) × AllBytes cs

abbrev pub converted : List ℕ → (i : ℕ) → Bytes → ℤ × Bytes
converted src i res =
    (if all_ascii src then pos (i + length src) else negsuc 0, memcpy res i (ascii_prefix src))

ascii_loop-prefix :
    (res : Bytes) (i : ℕ) (src : List ℕ) → AllBytes src → ascii_loop res i src ≡ converted src i res
unfolding ascii_loop memcpy
ascii_loop-prefix res i [] h = ap (λ k. (pos k, res)) (omega arith)
ascii_loop-prefix res i (c ∷ cs) (lt, h) =
    let e : suc i + length cs ≡ i + suc (length cs) = omega arith in
    elim (Bool-cases (ltb c 128)) [
      | inl t ↦
          let a : is_ascii c ≡ true = ground arith in
          rw (a, t) (ascii_loop-prefix (set res i c) (suc i) cs h ∙ rw e refl)
      | inr f ↦ let a : is_ascii c ≡ false = ground arith in rw (a, f) refl
    ]

-- `ascii_to_wchar` stores the characters up to the first that is not ASCII, one to a unit, and returns their
-- number if that is all of them, and -1 if not; where `wchar_t` has neither 2 nor 4 bytes it returns -1
-- and stores nothing.
pub ascii_to_wchar-prefix :
    (size : ℕ) (src : List ℕ) (res : Bytes)
    → AllBytes src
    → (size ≡ 2 → ascii_to_wchar size src res ≡ converted src 0 res)
      × (size ≡ 4 → ascii_to_wchar size src res ≡ converted src 0 res)
      × (size ≢ 2 → size ≢ 4 → ascii_to_wchar size src res ≡ (negsuc 0, res))
unfolding ascii_to_wchar ascii_to_utf16 ascii_to_utf32
ascii_to_wchar-prefix size src res h = (
  λ e. ground (arith, ascii_loop-prefix res 0 src h),
  λ e. ground (arith, ascii_loop-prefix res 0 src h),
  λ n n'. ground arith,
)
