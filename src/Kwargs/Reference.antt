-- ===== src/Kwargs/Reference.antt =====
-- `kwargs_unpack` of src/core/common.c against the list of keys that its format was written from.
use hiemal.Base.{
  ℕ, zero, suc, ◌<◌, ◌≡◌, refl, ap, ◌∙◌, Bool, true, false, none, some, List, [], ◌∷◌, ◌++◌, length,
  take, take-append, arith, if◌then◌else◌,
}
use hiemal.Base.Int.{pos, negsuc}
use hiemal.Str.{Str}
use hiemal.Kwargs.{
  isvarchar, NextArg, next_arg, Unpacked, returned, fault, behind, find_arg, unpack_key,
  unpack_loop, kwargs_unpack,
}
use hiemal.Kwargs.Scan.{
  is_punct, is_word, marks, next_arg-punct, next_arg-no_name, next_arg-name, next_arg-last,
}

-- A key with the punctuation before it: the first character of the name, and the others
pub record Key : Type 0 where
  pub before : Str
  pub first : ℕ
  pub others : Str

abbrev pub key_name : Key → Str
key_name k = k.first ∷ k.others

-- The format that is written from keys, with the punctuation at its end
unfoldable pub write_format : List Key → (end : Str) → Str
write_format [] end = end
write_format (k ∷ ks) end = k.before ++ (key_name k ++ write_format ks end)

pub record IsKey (k : Key) : Type 0 where
  pub punct : is_punct k.before ≡ true
  pub word : is_word (key_name k) ≡ true
  pub letter : isvarchar k.first ≡ true

-- Keys behind another key, with punctuation in between
abbrev pub AreBehind : List Key → Type 0
AreBehind [] = Unit {0}
AreBehind (k ∷ ks) = IsKey k × (0 < length k.before) × AreBehind ks

module _ {V : Type 0} (kwargs : List (Str × V)) where
  -- What unpacking means: each key takes an argument, whose value becomes the one of that name; a key with no value
  -- ends with -1 unless it is optional, that is, unless '(' is the last parenthesis before it.
  unfoldable pub unpack_keys : List Key → (opt : Bool) → List V → Unpacked V
  unfolding marks find_arg
  unpack_keys [] opt vars = returned (pos 0) vars
  unpack_keys (k ∷ ks) opt [] = fault
  unpack_keys (k ∷ ks) opt (v ∷ vars) = elim (find_arg (key_name k) kwargs) [
    | some w ↦ behind w (unpack_keys ks (marks k.before opt) vars)
    | none ↦
        if marks k.before opt
        then behind v (unpack_keys ks (marks k.before opt) vars)
        else returned (negsuc 0) (v ∷ vars)
  ]

  -- One key, before a rest of the loop that means what the rest of the keys mean
  unpack_key-means :
      (fmt : Str) (k : Key) (ks : List Key) (o : Bool) (vars : List V) (go_on : List V → Unpacked V)
      → take (length (key_name k)) fmt ≡ key_name k
      → ((vs : List V) → go_on vs ≡ unpack_keys ks (marks k.before o) vs)
      → unpack_key kwargs fmt (marks k.before o) (length (key_name k)) vars go_on
        ≡ unpack_keys (k ∷ ks) o vars
  unfolding unpack_key unpack_keys
  unpack_key-means fmt k ks o [] go_on t h = refl
  unpack_key-means fmt k ks o (v ∷ vars) go_on t h =
      ground (arith, ap (λ s. find_arg s kwargs) t, h vars)

  unpack_loop-steps :
      (fuel : ℕ) (fmt : Str) (o : Bool) (vars : List V) (a : NextArg) (m : ℕ)
      → next_arg fmt b';' none o ≡ some a
      → a.arglen ≡ pos (suc m)
      → unpack_loop (suc fuel) kwargs fmt o vars
        ≡ unpack_key kwargs fmt o (suc m) vars (λ vs. elim a.next [
          | none ↦ returned (pos 0) vs
          | some fmt' ↦ unpack_loop fuel kwargs fmt' a.optional vs
        ])
  unfolding unpack_loop
  unpack_loop-steps fuel fmt o vars a m e l = rw (e, l, unpack_loop) refl

  unpack_loop-means :
      (fuel : ℕ) (k : Key) (ks : List Key) (end : Str) (o : Bool) (vars : List V)
      → length ks < fuel
      → IsKey k
      → AreBehind ks
      → is_punct end ≡ true
      → unpack_loop fuel kwargs (key_name k ++ write_format ks end) (marks k.before o) vars
        ≡ unpack_keys (k ∷ ks) o vars
  unfolding write_format unpack_keys
  unpack_loop-means zero k ks end o vars lt key others p = elim lt [ ]
  unpack_loop-means (suc fuel) k [] end o vars lt key others p =
      unpack_loop-steps fuel (key_name k ++ end) (marks k.before o) vars _ (length k.others)
        (next_arg-last (marks k.before o) k.first k.others key.word end p) refl
      ∙ unpack_key-means (key_name k ++ end) k [] o vars (λ vs. returned (pos 0) vs)
          (take-append (key_name k) end) (λ vs. refl)
  unpack_loop-means (suc fuel) k (k' ∷ ks) end o vars lt key (key', apart, others) p =
      let rest = write_format (k' ∷ ks) end in
      unpack_loop-steps fuel (key_name k ++ rest) (marks k.before o) vars _ (length k.others)
        (next_arg-name (marks k.before o) k.first k.others key.word k'.before k'.first
          (k'.others ++ write_format ks end) apart key'.punct key'.letter)
        refl
      ∙ unpack_key-means (key_name k ++ rest) k (k' ∷ ks) o vars
          (λ vs.
            unpack_loop fuel kwargs (key_name k' ++ write_format ks end)
              (marks k'.before (marks k.before o)) vs)
          (take-append (key_name k) rest)
          (λ vs. unpack_loop-means fuel k' ks end (marks k.before o) vs (omega arith) key' others p)

  -- Punctuation in front of the first key takes a round of its own.
  unpack_loop-enters :
      (fuel : ℕ) (p : Str) (c : ℕ) (s : Str) (o : Bool) (vars : List V) (r : Unpacked V)
      → is_punct p ≡ true
      → isvarchar c ≡ true
      → unpack_loop fuel kwargs (c ∷ s) (marks p o) vars ≡ r
      → unpack_loop (suc fuel) kwargs (c ∷ s) (marks p o) vars ≡ r
      → unpack_loop (suc fuel) kwargs (p ++ (c ∷ s)) o vars ≡ r
  unfolding marks unpack_loop
  unpack_loop-enters fuel [] c s o vars r e v one two = two
  unpack_loop-enters fuel (x ∷ p) c s o vars r e v one two =
      rw (next_arg-punct o (x ∷ p) c s (omega arith) e v, unpack_loop) one

  -- `kwargs_unpack` of a format that is written from keys, with punctuation between them and at its end, does what the
  -- keys mean, within as many rounds as there are keys and one more.
  pub kwargs_unpack-means :
      (fuel : ℕ) (k : Key) (ks : List Key) (end : Str) (vars : List V)
      → suc (length ks) < fuel
      → IsKey k
      → AreBehind ks
      → is_punct end ≡ true
      → kwargs_unpack fuel kwargs (write_format (k ∷ ks) end) vars ≡ unpack_keys (k ∷ ks) false vars
  unfolding kwargs_unpack write_format
  kwargs_unpack-means zero k ks end vars lt key others p = elim lt [ ]
  kwargs_unpack-means (suc fuel) k ks end vars lt key others p =
      unpack_loop-enters fuel k.before k.first (k.others ++ write_format ks end) false vars _
        key.punct key.letter (unpack_loop-means fuel k ks end false vars (omega arith) key others p)
        (unpack_loop-means (suc fuel) k ks end false vars (omega arith) key others p)

  -- `kwargs_unpack` of a format that holds no name, such as the empty one, reads past its end.
  pub kwargs_unpack-no_name :
      (fuel : ℕ) (fmt : Str) (vars : List V)
      → is_punct fmt ≡ true
      → kwargs_unpack (suc fuel) kwargs fmt vars ≡ fault
  unfolding kwargs_unpack
  kwargs_unpack-no_name fuel fmt vars e = rw (next_arg-no_name false fmt e, unpack_loop) refl
