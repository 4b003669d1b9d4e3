-- ===== src/Args/Faults.antt =====
-- When `parse_args` of src/util/args.c follows a null pointer.
use hiemal.Base.{
  ℕ, zero, suc, ◌≤◌, ◌≡◌, ◌⊎◌, inl, inr, refl, true, false, some, List, [], ◌∷◌, ◌++◌, length, drop,
  arith, Bool-cases,
}
use hiemal.Str.{Str}
use hiemal.Args.{Arg, is_unnamed, is_option, parse_arg_seq, fault, scan, round, parse_args}

-- Entries before the one that a word names, and entries with an option among them
abbrev pub NoneNamed : List Arg → Str → Type 0
NoneNamed [] w = Unit
NoneNamed (a ∷ args) w = ((is_unnamed a.name ≡ true) ⊎ (is_option a w ≡ false)) × NoneNamed args w

abbrev pub HasOption : List Arg → Type 0
HasOption [] = ⊥
HasOption (a ∷ args) = (is_unnamed a.name ≡ false) ⊎ HasOption args

scan-end : (args : List Arg) → HasOption args → scan args [] ≡ fault
unfolding scan
scan-end [] h = absurd h
scan-end (a ∷ args) h = elim (Bool-cases (is_unnamed a.name)) [
  | inl u ↦ rw (u, scan-end args (elim h [ inl n ↦ absurd (ground arith) | inr g ↦ g ])) refl
  | inr n ↦ rw n refl
]

drop-all : {A : Type 0} (xs : List A) (n : ℕ) → length xs ≤ n → drop n xs ≡ []
drop-all [] zero le = refl
drop-all [] (suc n) le = refl
drop-all (x ∷ xs) zero le = elim le [ ]
drop-all (x ∷ xs) (suc n) le = drop-all xs n (omega arith)

scan-faults :
    (before : List Arg) (a b : Arg) (after : List Arg) (w : Str) (ws : List Str) (n : ℕ)
    → NoneNamed before w
    → is_unnamed a.name ≡ false
    → is_option a w ≡ true
    → parse_arg_seq a ws ≡ some (n, b)
    → length (w ∷ ws) ≤ n
    → HasOption after
    → scan (before ++ a ∷ after) (w ∷ ws) ≡ fault
unfolding scan
scan-faults [] a b after w ws n h u o e le more =
    rw (u, o, e, drop-all (w ∷ ws) n le, scan-end after more) refl
scan-faults (x ∷ before) a b after w ws n h u o e le more =
    ground (arith, h.0, scan-faults before a b after w ws n h.1 u o e le more)

-- `parse_args` follows a null pointer when an option takes the last words of the command line and a later
-- entry of the table is an option too: its name is compared with the null word at the end.
pub parse_args-faults :
    (k : ℕ) (before : List Arg) (a b : Arg) (after : List Arg) (w : Str) (ws : List Str) (n : ℕ)
    → NoneNamed before w
    → is_unnamed a.name ≡ false
    → is_option a w ≡ true
    → parse_arg_seq a ws ≡ some (n, b)
    → length (w ∷ ws) ≤ n
    → HasOption after
    → parse_args (suc k) (before ++ a ∷ after) (w ∷ ws) ≡ fault
unfolding parse_args round
parse_args-faults k before a b after w ws n h u o e le more =
    rw (scan-faults before a b after w ws n h u o e le more) refl
