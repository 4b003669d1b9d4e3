-- ===== src/Args/Sequence.antt =====
-- What `_parse_arg_seq` of src/util/args.c collects.
use hiemal.Base.{
  ℕ, zero, suc, ◌+◌, ◌≤◌, ◌<◌, ◌≡◌, ◌⊎◌, inl, inr, refl, Bool, true, false, none, some, List, [],
  ◌∷◌, length, take, drop, ltb, if◌then◌else◌, arith, Bool-cases, Option-cases,
}
use native.Mathlib.Decide.{dec_lt}
use hiemal.Str.{Str}
use hiemal.Args.{
  collect, words, Arg, accepts, count_found, own_word, set_flag, collect_words, parse_arg_sig,
  parse_arg_seq,
}

abbrev pub AllAccepted : Arg → List Str → Type 0
AllAccepted a [] = Unit
AllAccepted a (w ∷ ws) = (accepts a w ≡ true) × AllAccepted a ws

-- Whether a list of words starts with one that is not accepted, or is empty
abbrev pub StopsAt : Arg → List Str → Type 0
StopsAt a [] = Unit
StopsAt a (w ∷ ws) = accepts a w ≡ false

count_found-le : (a : Arg) (ws : List Str) → count_found a ws ≤ length ws
unfolding count_found
count_found-le a [] = omega arith
count_found-le a (w ∷ ws) = ground (arith, count_found-le a ws)

take-AllAccepted :
    (a : Arg) (ws : List Str) (k : ℕ) → k ≤ count_found a ws → AllAccepted a (take k ws)
unfolding count_found
take-AllAccepted a ws zero le = tt
take-AllAccepted a [] (suc k) le = tt
take-AllAccepted a (w ∷ ws) (suc k) le = elim (Bool-cases (accepts a w)) [
  | inl t ↦ (t, take-AllAccepted a ws k (ground arith))
  | inr f ↦ absurd (ground arith)
]

drop-StopsAt : (a : Arg) (ws : List Str) → StopsAt a (drop (count_found a ws) ws)
unfolding count_found
drop-StopsAt a [] = tt
drop-StopsAt a (w ∷ ws) = elim (Bool-cases (accepts a w)) [
  | inl t ↦ rw t (drop-StopsAt a ws)
  | inr f ↦ rw f f
]

-- `k` words of `ws`, which number `n` with the option itself, are the result `b` of the entry `a`.
pub record IsCollected (a : Arg) (range : ℕ × ℕ) (ws : List Str) (n : ℕ) (b : Arg) (k : ℕ)
    : Type 0 where
  pub parsed : n ≡ own_word a + k
  pub lower : range.0 ≤ k
  pub upper : k ≤ range.1
  pub there : k ≤ length ws
  pub accepted : AllAccepted a (take k ws)
  pub maximal : (k ≡ range.1) ⊎ StopsAt a (drop k ws)
  pub result : b ≡ (if ltb 0 k then record a { result = words (take k ws) } else a)

module _ (a : Arg) (ws : List Str) (range : ℕ × ℕ) (ordered : range.0 ≤ range.1) where
  collect_words-cases :
      (count_found a ws < range.0 → collect_words a range ws ≡ none)
      × (range.0 ≤ count_found a ws
          → (n : ℕ) × (b : Arg) × (k : ℕ) × (collect_words a range ws ≡ some (n, b))
            × IsCollected a range ws n b k)
  unfolding collect_words
  collect_words-cases = (
    λ lt. ground arith,
    λ ge. elim (dec_lt range.1 (count_found a ws)) [
      | yes over ↦
          let t : ltb range.1 (count_found a ws) ≡ true = ground arith in
          (
            own_word a + range.1,
            (if ltb 0 range.1 then record a { result = words (take range.1 ws) } else a),
            range.1,
            rw t refl,
            record {
              parsed = refl;
              lower = ordered;
              upper = omega arith;
              there = omega (arith, count_found-le a ws);
              accepted = take-AllAccepted a ws range.1 (omega arith);
              maximal = inl refl;
              result = refl;
            },
          )
      | no within ↦
          let t : ltb range.1 (count_found a ws) ≡ false = ground arith in
          let t' : ltb (count_found a ws) range.0 ≡ false = ground arith in
          (
            own_word a + count_found a ws,
            (if ltb 0 (count_found a ws)
                then record a { result = words (take (count_found a ws) ws) }
                else a),
            count_found a ws,
            rw (t, t') refl,
            record {
              parsed = refl;
              lower = ge;
              upper = omega arith;
              there = count_found-le a ws;
              accepted = take-AllAccepted a ws (count_found a ws) (omega arith);
              maximal = inr (drop-StopsAt a ws);
              result = refl;
            },
          )
    ],
  )

pub seq-collect :
    (a : Arg) (ws : List Str) (range : ℕ × ℕ)
    → a.action ≡ collect
    → parse_arg_sig a.sig ≡ some range
    → parse_arg_seq a ws ≡ collect_words a range ws
unfolding parse_arg_seq
seq-collect a ws range e e' = simp (e, e')

-- `_parse_arg_seq` for an entry that collects, whose signature gives a range: it fails if fewer words than the
-- lower bound lead the list and are accepted; else it collects, in order, as many as are accepted, up to
-- the upper bound, and returns their number, with the option's own word.
pub parse_arg_seq-collects :
    (a : Arg) (ws : List Str) (range : ℕ × ℕ)
    → a.action ≡ collect
    → parse_arg_sig a.sig ≡ some range
    → range.0 ≤ range.1
    → (count_found a ws < range.0 → parse_arg_seq a ws ≡ none)
      × (range.0 ≤ count_found a ws
          → (n : ℕ) × (b : Arg) × (k : ℕ) × (parse_arg_seq a ws ≡ some (n, b))
            × IsCollected a range ws n b k)
parse_arg_seq-collects a ws range e e' ordered =
    rw (seq-collect a ws range e e') (collect_words-cases a ws range ordered)

-- An entry keeps all but its result.
pub record SameEntry (a b : Arg) : Type 0 where
  pub name : b.name ≡ a.name
  pub sig : b.sig ≡ a.sig
  pub action : b.action ≡ a.action

set_flag-SameEntry : (a b : Arg) (x : Bool) (n : ℕ) → set_flag a x ≡ some (n, b) → SameEntry a b
unfolding set_flag
set_flag-SameEntry a b x n e = ground arith

collect_words-SameEntry :
    (a b : Arg) (range : ℕ × ℕ) (ws : List Str) (n : ℕ)
    → collect_words a range ws ≡ some (n, b)
    → SameEntry a b
unfolding collect_words
collect_words-SameEntry a b range ws n e = ground arith

pub parse_arg_seq-SameEntry :
    (a b : Arg) (ws : List Str) (n : ℕ) → parse_arg_seq a ws ≡ some (n, b) → SameEntry a b
unfolding parse_arg_seq
parse_arg_seq-SameEntry a b ws n e = elim (Option-cases (parse_arg_sig a.sig)) [
  | inl q ↦ absurd (ground arith)
  | inr (range, q) ↦ ground (
    arith,
    set_flag-SameEntry a b true n,
    set_flag-SameEntry a b false n,
    collect_words-SameEntry a b range ws n,
  )
]
