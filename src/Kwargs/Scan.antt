-- ===== src/Kwargs/Scan.antt =====
-- What `next_arg` of src/core/common.c reads at punctuation and at a name.
use hiemal.Base.{
  ℕ, ◌<◌, ◌≡◌, refl, ◌∙◌, Bool, true, false, not, ◌&&◌, none, some, [], ◌∷◌, ◌++◌, length, arith,
  ◌==◌, if◌then◌else◌,
}
use hiemal.Base.Int.{pos, negsuc}
use hiemal.Str.{Str}
use hiemal.Kwargs.{
  isvarchar, mark, skip_to, name_length, has_name, skip_past, drop_name, read_name, starts_name,
  next_arg,
}

-- Characters between names, and the characters of a name
unfoldable pub is_punct : Str → Bool
is_punct [] = true
is_punct (c ∷ s) = not (isvarchar c) && is_punct s

unfoldable pub is_word : Str → Bool
is_word [] = true
is_word (c ∷ s) = isvarchar c && is_word s

-- The flag behind some punctuation
unfoldable pub marks : Str → Bool → Bool
marks [] optional = optional
marks (c ∷ s) optional = marks s (if c == b'(' then true else if c == b')' then false else optional)

abbrev d : ℕ × ℕ
d = (b'(', b')')

skip_to-punct :
    (p : Str) (c : ℕ) (s : Str) (o : Bool)
    → is_punct p ≡ true
    → isvarchar c ≡ true
    → skip_to d (p ++ (c ∷ s)) o
      ≡ some (record { next = some (c ∷ s); arglen = negsuc 0; optional = marks p o })
unfolding skip_to is_punct marks mark
skip_to-punct [] c s o e v = ground (arith, v)
skip_to-punct (x ∷ p) c s o e v = ground (arith, skip_to-punct p c s (mark d x o), v)

-- Punctuation to the end is read past.
skip_to-end : (p : Str) (o : Bool) → is_punct p ≡ true → skip_to d p o ≡ none
unfolding skip_to is_punct mark
skip_to-end [] o e = refl
skip_to-end (x ∷ p) o e = ground (arith, skip_to-end p (mark d x o))

name_length-word :
    (n s : Str) → is_word n ≡ true → starts_name s ≡ false → name_length b';' (n ++ s) ≡ length n
unfolding name_length is_word isvarchar
name_length-word [] [] w e = refl
name_length-word [] (c ∷ s) w e = ground (arith, e)
name_length-word (c ∷ n) s w e = ground (arith, name_length-word n s, e)

drop_name-append : (n s : Str) → drop_name (length n) (n ++ s) ≡ s
drop_name-append [] s = refl
drop_name-append (c ∷ n) s = drop_name-append n s

skip_past-punct :
    (p : Str) (c : ℕ) (s : Str) (o : Bool)
    → is_punct p ≡ true
    → isvarchar c ≡ true
    → skip_past d (p ++ (c ∷ s)) o ≡ (c ∷ s, marks p o)
unfolding skip_past is_punct marks mark
skip_past-punct [] c s o e v = ground (arith, v)
skip_past-punct (x ∷ p) c s o e v = ground (arith, skip_past-punct p c s (mark d x o), v)

skip_past-end : (p : Str) (o : Bool) → is_punct p ≡ true → skip_past d p o ≡ ([], marks p o)
unfolding skip_past is_punct marks mark
skip_past-end [] o e = refl
skip_past-end (x ∷ p) o e = ground (arith, skip_past-end p (mark d x o))

punct-starts : (p : Str) → is_punct p ≡ true → starts_name p ≡ false
unfolding is_punct
punct-starts [] e = refl
punct-starts (x ∷ p) e = ground (arith, e)

-- `next_arg` as `kwargs_unpack` calls it
module _ (o : Bool) where
  next_arg-skips : (s : Str) → starts_name s ≡ false → next_arg s b';' none o ≡ skip_to d s o
  unfolding next_arg
  next_arg-skips s e = rw e refl

  next_arg-reads :
      (s rest t : Str) (m : ℕ) (o' : Bool)
      → starts_name s ≡ true
      → name_length b';' s ≡ m
      → drop_name m s ≡ rest
      → skip_past d rest o ≡ (t, o')
      → next_arg s b';' none o
        ≡ some
            (record { next = if has_name t then some t else none; arglen = pos m; optional = o' })
  unfolding next_arg read_name
  next_arg-reads s rest t m o' e l r k = rw (e, l, r, k) refl

  -- At punctuation before a name
  pub next_arg-punct :
      (p : Str) (c : ℕ) (s : Str)
      → 0 < length p
      → is_punct p ≡ true
      → isvarchar c ≡ true
      → next_arg (p ++ (c ∷ s)) b';' none o
        ≡ some (record { next = some (c ∷ s); arglen = negsuc 0; optional = marks p o })
  next_arg-punct [] c s lt e v = elim lt [ ]
  next_arg-punct (x ∷ p) c s lt e v =
      next_arg-skips ((x ∷ p) ++ (c ∷ s)) (punct-starts (x ∷ p) e) ∙ skip_to-punct (x ∷ p) c s o e v

  -- At punctuation with no name behind it
  pub next_arg-no_name : (p : Str) → is_punct p ≡ true → next_arg p b';' none o ≡ none
  next_arg-no_name p e = next_arg-skips p (punct-starts p e) ∙ skip_to-end p o e

  module _ (c : ℕ) (n : Str) (w : is_word (c ∷ n) ≡ true) where
    word-starts : isvarchar c ≡ true
    unfolding is_word
    word-starts = ground (arith, w)

    -- At a name with another behind it
    pub next_arg-name :
        (p : Str) (c' : ℕ) (s : Str)
        → 0 < length p
        → is_punct p ≡ true
        → isvarchar c' ≡ true
        → next_arg ((c ∷ n) ++ (p ++ (c' ∷ s))) b';' none o
          ≡ some
              (record { next = some (c' ∷ s); arglen = pos (length (c ∷ n)); optional = marks p o })
    unfolding has_name
    next_arg-name [] c' s lt e v = elim lt [ ]
    next_arg-name (x ∷ p) c' s lt e v =
        let rest = (x ∷ p) ++ (c' ∷ s) in
        next_arg-reads ((c ∷ n) ++ rest) rest (c' ∷ s) (length (c ∷ n)) (marks (x ∷ p) o)
          word-starts (name_length-word (c ∷ n) rest w (punct-starts (x ∷ p) e))
          (drop_name-append (c ∷ n) rest) (skip_past-punct (x ∷ p) c' s o e v)
        ∙ rw v refl

    -- At the last name
    pub next_arg-last :
        (p : Str)
        → is_punct p ≡ true
        → next_arg ((c ∷ n) ++ p) b';' none o
          ≡ some (record { next = none; arglen = pos (length (c ∷ n)); optional = marks p o })
    unfolding has_name
    next_arg-last p e =
        next_arg-reads ((c ∷ n) ++ p) p [] (length (c ∷ n)) (marks p o) word-starts
          (name_length-word (c ∷ n) p w (punct-starts p e)) (drop_name-append (c ∷ n) p)
          (skip_past-end p o e)
