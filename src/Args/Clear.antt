-- ===== src/Args/Clear.antt =====
-- `args_clear` of src/util/args.c: the blocks that it frees.
use hiemal.Base.{
  ℕ, suc, ◌+◌, Bool, ◌&&◌, Option, none, some, List, [], ◌∷◌, ◌++◌, ◌==◌, if◌then◌else◌, ◌>>=◌,
}
use hiemal.Str.{Str}
use hiemal.Args.{Arg, Action, Collected, collect, set_true, set_false, separate, null, flag, words}

-- What entry number `arg` points at: the block of its result, which has place 0, or the copy of a word, from
-- place 1 on
pub record Block : Type 0 where
  pub arg : ℕ
  pub place : ℕ

-- The loop over the collected words
unfoldable free_words : (arg place : ℕ) → List Str → List Block
free_words i p [] = []
free_words i p (w ∷ ws) = record { arg = i; place = p } ∷ free_words i (suc p) ws

-- `free` of a null pointer does nothing.
abbrev free_flag : (arg : ℕ) → Collected → List Block
free_flag i null = []
free_flag i _ = record { arg = i; place = 0 } ∷ []

-- What is freed for one entry; `none` is a result that is not an array of words.
unfoldable clear_result : (arg : ℕ) → Action → Collected → Option (List Block)
unfolding free_words
clear_result i set_true r = some (free_flag i r)
clear_result i set_false r = some (free_flag i r)
clear_result i separate r = some []
clear_result i collect null = some []
clear_result i collect (flag b) = none
clear_result i collect (words ws) = some (free_words i 1 ws ++ record { arg = i; place = 0 } ∷ [])

-- `args_clear`, from entry number `arg` on
unfoldable pub args_clear : (arg : ℕ) → List Arg → Option (List Block)
unfolding clear_result
args_clear i [] = some []
args_clear i (a ∷ args) =
    clear_result i a.action a.result >>= λ xs. args_clear (suc i) args >>= λ ys. some (xs ++ ys)

-- How often a block is freed
abbrev same_block : Block → Block → Bool
same_block b c = b.arg == c.arg && b.place == c.place

unfoldable pub times : Block → List Block → ℕ
times b [] = 0
times b (c ∷ cs) = (if same_block b c then 1 else 0) + times b cs

unfoldable pub frees : Block → Option (List Block) → ℕ
frees b none = 0
frees b (some xs) = times b xs
