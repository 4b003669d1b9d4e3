-- ===== src/Args/Signature.antt =====
-- The signatures that `_parse_arg_sig` of src/util/args.c reads.
use hiemal.Base.{
  ℕ, ◌+◌, ◌*◌, ◌^◌, ◌≤◌, ◌<◌, ◌≡◌, refl, false, some, List, [], ◌∷◌, ◌++◌, length, arith,
}
use hiemal.Str.{Str, is_int_str, eq_str}
use hiemal.Str.Range.{AllDigits, print, value, is_int_str-print, atoi_from-print}
use hiemal.Args.{int_max, star, plus, unsnoc, parse_arg_sig}

unsnoc-append : (s : Str) (c : ℕ) → unsnoc (s ++ c ∷ []) ≡ some (s, c)
unfolding unsnoc
unsnoc-append [] c = refl
unsnoc-append (d ∷ s) c = rw (unsnoc-append s c) refl

eq_str-print : (ds : List ℕ) (c : ℕ) → AllDigits ds → c < 48 → eq_str (print ds) (c ∷ []) ≡ false
unfolding eq_str
eq_str-print [] c h lt = refl
eq_str-print (d ∷ ds) c h lt = ground arith

eq_str-more :
    (ds : List ℕ) (c : ℕ)
    → AllDigits ds
    → c < 48
    → 0 < length ds
    → eq_str (print ds ++ plus ∷ []) (c ∷ []) ≡ false
unfolding eq_str
eq_str-more [] c h lt pos = absurd (omega arith)
eq_str-more (d ∷ ds) c h lt pos = ground arith

is_int_str-plus : (ds : List ℕ) → AllDigits ds → is_int_str (print ds ++ plus ∷ []) ≡ false
unfolding is_int_str
is_int_str-plus [] h = refl
is_int_str-plus (d ∷ ds) (lt, h) = ground (arith, is_int_str-plus ds h)

-- `_parse_arg_sig` reads "*" as any number, "+" as one or more, a decimal number as that number, and a number
-- of one digit or more with "+" behind it as that number or more.
pub parse_arg_sig-reads :
    (ds : List ℕ)
    → AllDigits ds
    → value ds ≤ int_max
    → (parse_arg_sig (star ∷ []) ≡ some (0, int_max))
      × (parse_arg_sig (plus ∷ []) ≡ some (1, int_max))
      × (parse_arg_sig (print ds) ≡ some (value ds, value ds))
      × (0 < length ds → parse_arg_sig (print ds ++ plus ∷ []) ≡ some (value ds, int_max))
unfolding parse_arg_sig
parse_arg_sig-reads ds h small = (
  refl,
  refl,
  rw
      (
        eq_str-print ds star h (omega arith),
        eq_str-print ds plus h (omega arith),
        is_int_str-print ds h,
        atoi_from-print 0 ds,
      )
      (let e : 0 * 10 ^ length ds + value ds ≡ value ds = omega arith in rw e refl),
  λ pos.
      let e : 0 * 10 ^ length ds + value ds ≡ value ds = omega arith in
      rw
        (
          eq_str-more ds star h (omega arith) pos,
          eq_str-more ds plus h (omega arith) pos,
          is_int_str-plus ds h,
          unsnoc-append (print ds) plus,
          is_int_str-print ds h,
          atoi_from-print 0 ds,
          e,
        )
        refl,
)
