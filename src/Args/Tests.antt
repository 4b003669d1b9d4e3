-- ===== src/Args/Tests.antt =====
-- The theorems on command lines at concrete tables.
use hiemal.Base.{ℕ, ◌≤◌, ◌<◌, ◌≡◌, ◌≢◌, refl, false, none, some, List, [], ◌∷◌, arith, sym, ap, ◌∙◌}
use mathlib.Core.Option.{some-injective}
use hiemal.Str.{Str}
use hiemal.Args.{
  collect, set_true, null, flag, unnamed, named, Arg, int_max, plus, star, count_found,
  parse_arg_sig, parse_arg_seq, parse_args, running,
}
use hiemal.Args.Signature.{parse_arg_sig-reads}
use hiemal.Args.Sequence.{IsCollected, parse_arg_seq-collects}
use hiemal.Args.Endless.{parse_args-never_ends}
use hiemal.Args.Ends.{AllTake, parse_args-ends}

-- Options "-v" and "-q", and the rest of the words, which are to be one or more
abbrev loud : Arg
loud = record {
  name = named (118 ∷ []);
  short_name = 118;
  sig = 48 ∷ [];
  action = set_true;
  result = flag false;
  arg_check = none;
}

abbrev quiet : Arg
quiet = record loud { name = named (113 ∷ []); short_name = 113 }

abbrev files : Arg
files = record {
  name = unnamed;
  short_name = 0;
  sig = plus ∷ [];
  action = collect;
  result = null;
  arg_check = none;
}

abbrev word : Str
word = 97 ∷ []

abbrev two_words : List Str
two_words = word ∷ word ∷ []

parse_arg_seq-collects_example :
    (count_found files two_words < 1 → parse_arg_seq files two_words ≡ none)
    × (1 ≤ count_found files two_words
        → (n : ℕ) × (b : Arg) × (k : ℕ) × (parse_arg_seq files two_words ≡ some (n, b))
          × IsCollected files (1, int_max) two_words n b k)
parse_arg_seq-collects_example =
    parse_arg_seq-collects files two_words (1, int_max) refl
      (let e : parse_arg_sig (plus ∷ []) ≡ some (1, int_max) = sig_plus in e) (omega arith)
  where
    sig_plus : parse_arg_sig (plus ∷ []) ≡ some (1, int_max)
    sig_plus = (parse_arg_sig-reads [] tt (omega arith)).1

-- Files that are never accepted
abbrev no_files : Arg
no_files = record files { sig = star ∷ []; arg_check = some (λ w. false) }

parse_args-never_ends_example : parse_args 1000000 (no_files ∷ []) two_words ≡ running
parse_args-never_ends_example =
    parse_args-never_ends no_files word (word ∷ []) int_max refl refl sig_star refl 1000000
  where
    sig_star : parse_arg_sig (star ∷ []) ≡ some (0, int_max)
    sig_star = (parse_arg_sig-reads [] tt (omega arith)).0

files-AllTake : AllTake (loud ∷ files ∷ [])
files-AllTake = (
  λ u. cc,
  (
    λ u. (
      refl,
      λ range e.
          let q = some-injective (1, int_max) range (sym sig_plus ∙ e) in
          (omega (arith, ap (λ r. r.0) q), omega (arith, ap (λ r. r.1) q)),
    ),
    tt,
  ),
)
  where
    sig_plus : parse_arg_sig (plus ∷ []) ≡ some (1, int_max)
    sig_plus = (parse_arg_sig-reads [] tt (omega arith)).1

parse_args-ends_example : parse_args 2 (loud ∷ files ∷ []) two_words ≢ running
parse_args-ends_example =
    parse_args-ends 2 (loud ∷ files ∷ []) two_words files-AllTake (omega arith)
