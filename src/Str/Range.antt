-- ===== src/Str/Range.antt =====
-- `is_int_range` and `parse_int_range` of src/util/str.c read two decimal numbers.
use hiemal.Base.{
  ℕ, suc, ◌+◌, ◌-◌, ◌*◌, ◌^◌, ◌<◌, ◌≡◌, refl, ap, ◌∙◌, true, none, some, List, [], ◌∷◌, ◌++◌,
  length, take, drop, leb, if◌then◌else◌, arith,
}
use native.Mathlib.Nat.{pow-suc}
use hiemal.Str.{
  Str, dash, is_int_str, strchr, strrchr, atoi_from, is_ordered, is_int_range, parse_int_range,
}

-- Decimal digits, the first one the most significant: their characters and their number
abbrev pub AllDigits : List ℕ → Type 0
AllDigits [] = Unit
AllDigits (d ∷ ds) = (d < 10) × AllDigits ds

abbrev pub print : List ℕ → Str
print [] = []
print (d ∷ ds) = (48 + d) ∷ print ds

abbrev pub value : List ℕ → ℕ
value [] = 0
value (d ∷ ds) = d * 10 ^ length ds + value ds

pub is_int_str-print : (ds : List ℕ) → AllDigits ds → is_int_str (print ds) ≡ true
unfolding is_int_str
is_int_str-print [] h = refl
is_int_str-print (d ∷ ds) (lt, h) = ground (arith, is_int_str-print ds h)

pub atoi_from-print :
    (acc : ℕ) (ds : List ℕ) → atoi_from acc (print ds) ≡ acc * 10 ^ length ds + value ds
unfolding atoi_from
atoi_from-print acc [] = omega arith
atoi_from-print acc (d ∷ ds) =
    atoi_from-print (10 * acc + (48 + d - 48)) ds
    ∙ (let e : 48 + d - 48 ≡ d = omega arith in rw (e, pow-suc 10 (length ds)) (omega arith))

strrchr-print : (ds : List ℕ) → AllDigits ds → strrchr (print ds) dash ≡ none
unfolding strrchr
strrchr-print [] h = refl
strrchr-print (d ∷ ds) (lt, h) = rw (strrchr-print ds h) (ground arith)

module _ (es : List ℕ) (h' : AllDigits es) where
  strchr-range :
      (ds : List ℕ) → AllDigits ds → strchr (print ds ++ dash ∷ print es) dash ≡ some (length ds)
  unfolding strchr
  strchr-range [] h = refl
  strchr-range (d ∷ ds) (lt, h) = ground (arith, strchr-range ds h)

  strrchr-range :
      (ds : List ℕ) → AllDigits ds → strrchr (print ds ++ dash ∷ print es) dash ≡ some (length ds)
  unfolding strrchr
  strrchr-range [] h = ground (arith, strrchr-print es h')
  strrchr-range (d ∷ ds) (lt, h) = rw (strrchr-range ds h) refl

take-range : (ds : List ℕ) (s : Str) → take (length ds) (print ds ++ s) ≡ print ds
take-range [] s = refl
take-range (d ∷ ds) s = ap (λ t. (48 + d) ∷ t) (take-range ds s)

drop-range : (ds : List ℕ) (s : Str) → drop (suc (length ds)) (print ds ++ dash ∷ s) ≡ s
drop-range [] s = refl
drop-range (d ∷ ds) s = drop-range ds s

module _ (ds es : List ℕ) (h : AllDigits ds) (h' : AllDigits es) where
  is_ordered-range :
      is_ordered (print ds ++ dash ∷ print es) (length ds) ≡ leb (value ds) (value es)
  unfolding is_ordered
  is_ordered-range =
      rw
        (
          take-range ds (dash ∷ print es),
          drop-range ds (print es),
          is_int_str-print ds h,
          is_int_str-print es h',
          atoi_from-print 0 ds,
          atoi_from-print 0 es,
        )
        (ground arith)

  is_int_range-range : is_int_range (print ds ++ dash ∷ print es) ≡ leb (value ds) (value es)
  unfolding is_int_range
  is_int_range-range =
      ground (arith, strchr-range es h' ds h, strrchr-range es h' ds h, is_ordered-range)

-- `parse_int_range` reads two decimal numbers below 2^31 with a dash between them, and fails where the
-- first is the greater one. A number without digits is 0.
pub parse_int_range-print :
    (ds es : List ℕ)
    → AllDigits ds
    → AllDigits es
    → value ds < 2 ^ 31
    → value es < 2 ^ 31
    → parse_int_range (print ds ++ dash ∷ print es)
      ≡ (if leb (value ds) (value es) then some (value ds, value es) else none)
unfolding parse_int_range
parse_int_range-print ds es h h' small small' =
    rw
      (
        is_int_range-range ds es h h',
        strchr-range es h' ds h,
        take-range ds (dash ∷ print es),
        drop-range ds (print es),
        atoi_from-print 0 ds,
        atoi_from-print 0 es,
      )
      (ground arith)
