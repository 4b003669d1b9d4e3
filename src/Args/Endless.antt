-- ===== src/Args/Endless.antt =====
-- When `parse_args` of src/util/args.c never ends.
use hiemal.Base.{ℕ, zero, suc, ◌≡◌, refl, ◌∙◌, true, false, some, List, [], ◌∷◌, ltb, arith}
use hiemal.Str.{Str}
use hiemal.Args.{
  own_word, collect, Arg, accepts, is_unnamed, count_found, collect_words, parse_arg_sig,
  parse_arg_seq, ok, running, scan, default_opt, set_default, take_default, round, parse_args,
}
use hiemal.Args.Sequence.{seq-collect}

module _ (d : Arg) (w : Str) (ws : List Str) (upper : ℕ) (u : is_unnamed d.name ≡ true)
    (act : d.action ≡ collect) (sig : parse_arg_sig d.sig ≡ some (0, upper))
    (no_word : accepts d w ≡ false) where
  collect-nothing : collect_words d (0, upper) (w ∷ ws) ≡ some (0, d)
  unfolding collect_words count_found
  collect-nothing =
      let found : count_found d (w ∷ ws) ≡ 0 = simp no_word in
      let t : ltb upper 0 ≡ false = ground arith in
      let own : own_word d ≡ 0 = simp u in simp (found, t, own)

  seq-nothing : parse_arg_seq d (w ∷ ws) ≡ some (0, d)
  seq-nothing = seq-collect d (w ∷ ws) (0, upper) act sig ∙ collect-nothing

  round-nothing : round (d ∷ []) (w ∷ ws) ≡ ok (d ∷ [], w ∷ ws)
  unfolding round scan take_default default_opt set_default
  round-nothing = ground (arith, seq-nothing)

  -- `parse_args` never ends when the table has a default entry alone, whose signature allows no words, and the
  -- next word is one that the entry does not accept: it uses up any number of rounds.
  pub parse_args-never_ends : (k : ℕ) → parse_args k (d ∷ []) (w ∷ ws) ≡ running
  unfolding parse_args
  parse_args-never_ends zero = refl
  parse_args-never_ends (suc k) = rw round-nothing (parse_args-never_ends k)
