-- ===== src/Args/Ends.antt =====
-- When `parse_args` of src/util/args.c ends, and with how many rounds.
use hiemal.Base.{
  ℕ, zero, suc, ◌≤◌, ◌<◌, ◌≡◌, ◌≢◌, inl, inr, refl, ap, sym, ◌∙◌, true, none, some, List, [], ◌∷◌,
  length, drop, arith, Bool-cases, Option-cases, length-drop,
}
use mathlib.Core.Option.{none-ne-some, some-injective}
use mathlib.Core.Path.{subst}
use hiemal.Str.{Str}
use hiemal.Args.{
  collect, Arg, is_unnamed, is_option, collect_words, parse_arg_sig, parse_arg_seq, Parse, ok,
  failed, fault, running, and_then, scan, default_opt, set_default, take_default, round, parse_args,
}
use hiemal.Args.Sequence.{SameEntry, seq-collect, parse_arg_seq-SameEntry}

-- Entries of which the default ones take at least one word, or fail
abbrev pub TakesWords : Arg → Type 0
TakesWords a =
    is_unnamed a.name ≡ true
    → (a.action ≡ collect)
      × ((range : ℕ × ℕ) → parse_arg_sig a.sig ≡ some range → (1 ≤ range.0) × (1 ≤ range.1))

abbrev pub AllTake : List Arg → Type 0
AllTake [] = Unit
AllTake (a ∷ args) = TakesWords a × AllTake args

collect_words-takes :
    (a b : Arg) (range : ℕ × ℕ) (ws : List Str) (n : ℕ)
    → 1 ≤ range.0
    → 1 ≤ range.1
    → collect_words a range ws ≡ some (n, b)
    → 1 ≤ n
unfolding collect_words
collect_words-takes a b range ws n lo hi e = ground arith

seq-no_sig : (a : Arg) (ws : List Str) → parse_arg_sig a.sig ≡ none → parse_arg_seq a ws ≡ none
unfolding parse_arg_seq
seq-no_sig a ws q = rw q refl

seq-takes :
    (a b : Arg) (ws : List Str) (n : ℕ)
    → TakesWords a
    → is_unnamed a.name ≡ true
    → parse_arg_seq a ws ≡ some (n, b)
    → 1 ≤ n
seq-takes a b ws n t u e = elim (Option-cases (parse_arg_sig a.sig)) [
  | inl q ↦ absurd (none-ne-some (n, b) (sym (seq-no_sig a ws q) ∙ e))
  | inr (range, q) ↦
      let (act, bounds) = t u in
      let r = bounds range q in
      collect_words-takes a b range ws n r.0 r.1 (sym (seq-collect a ws range act q) ∙ e)
]

SameEntry-TakesWords : {a b : Arg} → SameEntry a b → TakesWords a → TakesWords b
SameEntry-TakesWords s t u =
    let (act, bounds) = t (ap is_unnamed (sym s.name) ∙ u) in
    (s.action ∙ act, λ range q. bounds range (ap parse_arg_sig (sym s.sig) ∙ q))

-- What the walk over the table, and the default entry, leave: entries of the same kind, and fewer words
abbrev Kept : List Str → Parse (List Arg × List Str) → Type 0
Kept ws (ok r) = AllTake r.0 × (length r.1 ≤ length ws)
Kept ws failed = Unit
Kept ws fault = Unit
Kept ws running = ⊥

Kept-cons :
    (a : Arg) (us ws : List Str) (p : Parse (List Arg × List Str))
    → TakesWords a
    → length us ≤ length ws
    → Kept us p
    → Kept ws (and_then p (λ r. ok (a ∷ r.0, r.1)))
Kept-cons a us ws (ok r) t le h = ((t, h.0), omega (arith, h.1))
Kept-cons a us ws failed t le h = tt
Kept-cons a us ws fault t le h = tt
Kept-cons a us ws running t le h = absurd h

scan-Kept : (args : List Arg) (ws : List Str) → AllTake args → Kept ws (scan args ws)
unfolding scan
scan-Kept [] ws h = (tt, omega arith)
scan-Kept (a ∷ args) [] h = elim (Bool-cases (is_unnamed a.name)) [
  | inl u ↦ rw u (Kept-cons a [] [] (scan args []) h.0 (omega arith) (scan-Kept args [] h.1))
  | inr n ↦ rw n tt
]
scan-Kept (a ∷ args) (w ∷ ws) h =
    let other =
      Kept-cons a (w ∷ ws) (w ∷ ws) (scan args (w ∷ ws)) h.0 (omega arith)
        (scan-Kept args (w ∷ ws) h.1) in
    elim (Bool-cases (is_unnamed a.name)) [
      | inl u ↦ rw u other
      | inr n ↦ elim (Bool-cases (is_option a w)) [
        | inr f ↦ rw (n, f) other
        | inl t ↦ elim (Option-cases (parse_arg_seq a ws)) [
          | inl e ↦ rw (n, t, e) tt
          | inr ((k, b), e) ↦
              rw (n, t, e)
                (Kept-cons b (drop k (w ∷ ws)) (w ∷ ws) (scan args (drop k (w ∷ ws)))
                  (SameEntry-TakesWords (parse_arg_seq-SameEntry a b ws k e) h.0)
                  (omega (arith, length-drop k (w ∷ ws))) (scan-Kept args (drop k (w ∷ ws)) h.1))
        ]
      ]
    ]

default_opt-takes :
    (args : List Arg) (d : Arg)
    → AllTake args
    → default_opt args ≡ some d
    → TakesWords d × (is_unnamed d.name ≡ true)
unfolding default_opt
default_opt-takes [] d h e = absurd (none-ne-some d e)
default_opt-takes (a ∷ args) d h e = elim (Option-cases (default_opt args)) [
  | inr (x, q) ↦ default_opt-takes args d h.1 (q ∙ rw q at e)
  | inl q ↦ elim (Bool-cases (is_unnamed a.name)) [
    | inr n ↦ absurd (none-ne-some d (rw (q, n) at e))
    | inl u ↦
        subst (λ x. TakesWords x × (is_unnamed x.name ≡ true)) (some-injective a d (rw (q, u) at e))
          (h.0, u)
  ]
]

set_default-AllTake :
    (args : List Arg) (d : Arg) → AllTake args → TakesWords d → AllTake (set_default d args)
unfolding set_default
set_default-AllTake [] d h t = tt
set_default-AllTake (a ∷ args) d h t =
    let rest : AllTake (a ∷ set_default d args) = (h.0, set_default-AllTake args d h.1 t) in
    elim (Option-cases (default_opt args)) [
      | inr (x, q) ↦
          let z : set_default d (a ∷ args) ≡ a ∷ set_default d args = ground (arith, q) in rw z rest
      | inl q ↦ elim (Bool-cases (is_unnamed a.name)) [
        | inl u ↦
            let z : set_default d (a ∷ args) ≡ d ∷ args = ground (arith, q, u) in rw z (t, h.1)
        | inr n ↦
            let z : set_default d (a ∷ args) ≡ a ∷ set_default d args = ground (arith, q, n) in
            rw z rest
      ]
    ]

-- A round leaves fewer words, unless it fails.
abbrev Shorter : List Str → Parse (List Arg × List Str) → Type 0
Shorter ws (ok r) = AllTake r.0 × (length r.1 < length ws)
Shorter ws failed = Unit
Shorter ws fault = Unit
Shorter ws running = ⊥

take_default-Shorter :
    (args : List Arg) (ws us : List Str)
    → AllTake args
    → length us ≤ length ws
    → 0 < length ws
    → Shorter ws (take_default args us)
unfolding take_default
take_default-Shorter args ws [] h le pos = (h, pos)
take_default-Shorter args ws (u ∷ us) h le pos = elim (Option-cases (default_opt args)) [
  | inl q ↦ let z : take_default args (u ∷ us) ≡ fault = ground (arith, q) in rw z tt
  | inr (d, q) ↦
      let (t, unnamed) = default_opt-takes args d h q in
      elim (Option-cases (parse_arg_seq d (u ∷ us))) [
        | inl e ↦ let z : take_default args (u ∷ us) ≡ failed = ground (arith, q, e) in rw z tt
        | inr ((n, b), e) ↦
            let z : take_default args (u ∷ us) ≡ ok (set_default b args, drop n (u ∷ us)) =
              ground (arith, q, e) in
            rw z (
              set_default-AllTake args b h
                  (SameEntry-TakesWords (parse_arg_seq-SameEntry d b (u ∷ us) n e) t),
              omega (arith, length-drop n (u ∷ us), seq-takes d b (u ∷ us) n t unnamed e),
            )
      ]
]

round-Shorter :
    (ws : List Str) (p : Parse (List Arg × List Str))
    → 0 < length ws
    → Kept ws p
    → Shorter ws (and_then p (λ r. take_default r.0 r.1))
round-Shorter ws (ok r) pos h = take_default-Shorter r.0 ws r.1 h.0 h.1 pos
round-Shorter ws failed pos h = tt
round-Shorter ws fault pos h = tt
round-Shorter ws running pos h = absurd h

Shorter-ends :
    (k : ℕ) (ws : List Str) (p : Parse (List Arg × List Str))
    → Shorter ws p
    → ((r : List Arg × List Str)
        → AllTake r.0
        → length r.1 < length ws
        → parse_args k r.0 r.1 ≢ running)
    → and_then p (λ r. parse_args k r.0 r.1) ≢ running
Shorter-ends k ws (ok r) h ih = ih r h.0 h.1
Shorter-ends k ws failed h ih = λ e. cc
Shorter-ends k ws fault h ih = λ e. cc
Shorter-ends k ws running h ih = absurd h

-- `parse_args` ends, with a result, an error or a fault, within as many rounds as there are words, if each
-- default entry of the table collects at least one word.
pub parse_args-ends :
    (k : ℕ) (args : List Arg) (ws : List Str)
    → AllTake args
    → length ws ≤ k
    → parse_args k args ws ≢ running
unfolding parse_args round
parse_args-ends k args [] h le = λ e. cc
parse_args-ends zero args (w ∷ ws) h le = elim le [ ]
parse_args-ends (suc k) args (w ∷ ws) h le =
    Shorter-ends k (w ∷ ws) (round args (w ∷ ws))
      (round-Shorter (w ∷ ws) (scan args (w ∷ ws)) (omega arith) (scan-Kept args (w ∷ ws) h))
      (λ r h' lt. parse_args-ends k r.0 r.1 h' (omega (arith, lt, le)))
