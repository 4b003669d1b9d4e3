-- ===== src/Args.antt =====
-- src/util/args.c and include/util/args.h: command-line arguments against a table of options. The words that
-- are left to parse are a list; `argv` ends with a null pointer, so the word at the end of the list is null.
pub mod Signature
pub mod Sequence
pub mod Faults
pub mod Endless
pub mod Ends
mod Clear
mod Tests
use hiemal.Base.{
  ℕ, zero, suc, ◌+◌, ◌-◌, ◌^◌, Bool, true, false, not, ◌&&◌, ◌||◌, Option, none, some, List, [],
  ◌∷◌, length, take, drop, ltb, ◌==◌, if◌then◌else◌, ◌>>=◌, map,
}
use hiemal.Str.{Str, dash, is_int_str, atoi, eq_str}

-- `enum arg_action`
pub data Action : Type 0 where
  collect set_true set_false separate : Action

-- What `result` points at
pub data Collected : Type 0 where
  null : Collected
  flag : Bool → Collected
  words : List Str → Collected

-- `HM_ARG_DEFAULT`, or a string
pub data ArgName : Type 0 where
  unnamed : ArgName
  named : Str → ArgName

-- `struct _arg`; `arg_check` may be null.
pub record Arg : Type 0 where
  pub name : ArgName
  pub short_name : ℕ
  pub sig : Str
  pub action : Action
  pub result : Collected
  pub arg_check : Option (Str → Bool)

abbrev pub int_max : ℕ
int_max = 2 ^ 31 - 1

-- '*' and '+'
abbrev pub star : ℕ
star = 42

abbrev pub plus : ℕ
plus = 43

-- The last character, and the string without it
unfoldable pub unsnoc : Str → Option (Str × ℕ)
unsnoc [] = none
unsnoc (c ∷ cs) = elim (unsnoc cs) [ none ↦ some ([], c) | some (s, d) ↦ some (c ∷ s, d) ]

-- `_parse_arg_sig`: the range, or `none` for -1
unfoldable pub parse_arg_sig : Str → Option (ℕ × ℕ)
unfolding eq_str is_int_str unsnoc
parse_arg_sig sig =
    if eq_str sig (star ∷ [])
    then some (0, int_max)
    else if eq_str sig (plus ∷ [])
    then some (1, int_max)
    else if is_int_str sig
    then some (atoi sig, atoi sig)
    else elim (unsnoc sig) [
      | none ↦ none
      | some (s, c) ↦ if c == plus && is_int_str s then some (atoi s, int_max) else none
    ]

abbrev pub is_unnamed : ArgName → Bool
is_unnamed unnamed = true
is_unnamed (named s) = false

abbrev pub starts_with_dash : Str → Bool
starts_with_dash [] = false
starts_with_dash (c ∷ cs) = c == dash

abbrev pub passes : Option (Str → Bool) → Str → Bool
passes none s = true
passes (some check) s = check s

-- The words that the loop of `_parse_arg_seq` counts
abbrev pub accepts : Arg → Str → Bool
accepts a w = not (not (is_unnamed a.name) && starts_with_dash w) && passes a.arg_check w

unfoldable pub count_found : Arg → List Str → ℕ
count_found a [] = 0
count_found a (w ∷ ws) = let rest = count_found a ws in if accepts a w then suc rest else 0

-- `n_parsed` counts the option itself, unless it is the default one.
abbrev pub own_word : Arg → ℕ
own_word a = if is_unnamed a.name then 0 else 1

abbrev keep_words : Arg → (found : ℕ) → List Str → Arg
keep_words a found ws = if ltb 0 found then record a { result = words (take found ws) } else a

unfoldable pub set_flag : Arg → Bool → Option (ℕ × Arg)
set_flag a b = elim a.result [ null ↦ none | _ ↦ some (own_word a, record a { result = flag b }) ]

unfoldable pub collect_words : Arg → (range : ℕ × ℕ) → List Str → Option (ℕ × Arg)
unfolding count_found
collect_words a range ws =
    let found = count_found a ws in
    if ltb range.1 found
    then some (own_word a + range.1, keep_words a range.1 ws)
    else if ltb found range.0
    then none
    else some (own_word a + found, keep_words a found ws)

-- `_parse_arg_seq`: the number of words parsed and the entry with its result, or `none` for -1
unfoldable pub parse_arg_seq : Arg → List Str → Option (ℕ × Arg)
unfolding parse_arg_sig set_flag collect_words
parse_arg_seq a ws = parse_arg_sig a.sig >>= λ range. elim a.action [
  | set_true ↦ set_flag a true
  | set_false ↦ set_flag a false
  | collect ↦ collect_words a range ws
  | separate ↦ none
]

unfoldable pub args_init : List Arg → List Arg
args_init [] = []
args_init (a ∷ args) =
    elim a.action [
      | set_true ↦ record a { result = flag false }
      | set_false ↦ record a { result = flag true }
      | collect ↦ a
      | separate ↦ a
    ]
    ∷ args_init args

-- "-s", and whether a word is this or "--name"
abbrev pub short_opt : Arg → Str
short_opt a = if a.short_name == 0 then dash ∷ [] else dash ∷ a.short_name ∷ []

unfoldable pub is_option : Arg → Str → Bool
unfolding eq_str
is_option a w = elim a.name [
  | unnamed ↦ false
  | named s ↦ eq_str (dash ∷ dash ∷ s) w || eq_str (short_opt a) w
]

-- `fault`: a null pointer is followed. `running`: the rounds allowed are used up.
pub data Parse (A : Type 0) : Type 0 where
  ok : A → Parse A
  failed : Parse A
  fault : Parse A
  running : Parse A

abbrev pub and_then : {A B : Type 0} → Parse A → (A → Parse B) → Parse B
and_then (ok a) k = k a
and_then failed k = failed
and_then fault k = fault
and_then running k = running

-- The walk over the table: the entries after it, and the words that are left
unfoldable pub scan : List Arg → List Str → Parse (List Arg × List Str)
unfolding is_option
scan [] ws = ok ([], ws)
scan (a ∷ args) [] =
    let keep = λ (r : List Arg × List Str). ok (a ∷ r.0, r.1) in
    if is_unnamed a.name then and_then (scan args []) keep else fault
scan (a ∷ args) (w ∷ ws) =
    let keep = λ (b : Arg) (r : List Arg × List Str). ok (b ∷ r.0, r.1) in
    let other = and_then (scan args (w ∷ ws)) (keep a) in
    if is_unnamed a.name
    then other
    else if is_option a w
    then elim (parse_arg_seq a ws) [
      | none ↦ failed
      | some (n, b) ↦ and_then (scan args (drop n (w ∷ ws))) (keep b)
    ]
    else other

-- `default_opt`: the last unnamed entry, or a null pointer; what is parsed for it is stored in its place.
unfoldable pub default_opt : List Arg → Option Arg
default_opt [] = none
default_opt (a ∷ args) = elim (default_opt args) [
  | some d ↦ some d
  | none ↦ if is_unnamed a.name then some a else none
]

unfoldable pub set_default : Arg → List Arg → List Arg
unfolding default_opt
set_default d [] = []
set_default d (a ∷ args) =
    let rest = a ∷ set_default d args in
    elim (default_opt args) [ some _ ↦ rest | none ↦ if is_unnamed a.name then d ∷ args else rest ]

-- What a round does with the words that no option took
unfoldable pub take_default : List Arg → List Str → Parse (List Arg × List Str)
unfolding default_opt set_default
take_default args [] = ok (args, [])
take_default args (w ∷ ws) = elim (default_opt args) [
  | none ↦ fault
  | some d ↦ elim (parse_arg_seq d (w ∷ ws)) [
    | none ↦ failed
    | some (n, d') ↦ ok (set_default d' args, drop n (w ∷ ws))
  ]
]

-- A round of the outer loop of `parse_args`, and the loop itself, for a number of rounds
unfoldable pub round : List Arg → List Str → Parse (List Arg × List Str)
unfolding scan take_default
round args ws = and_then (scan args ws) (λ r. take_default r.0 r.1)

unfoldable pub parse_args : (rounds : ℕ) → List Arg → List Str → Parse (List Arg)
unfolding round
parse_args k args [] = ok args
parse_args zero args (w ∷ ws) = running
parse_args (suc k) args (w ∷ ws) = and_then (round args (w ∷ ws)) (λ r. parse_args k r.0 r.1)
