-- ===== src/Kwargs/Tests.antt =====
-- The format of the sine source of src/core/dsp.c, "(a;ph;)arg;dt_freq;", with two of its four arguments given.
use hiemal.Base.{ℕ, ◌≡◌, refl, List, [], ◌∷◌, arith}
use hiemal.Base.Int.{pos}
use hiemal.Str.{Str, eq_str}
use hiemal.Kwargs.{returned, find_arg, kwargs_unpack, isvarchar}
use hiemal.Kwargs.Scan.{is_punct, is_word, marks}
use hiemal.Kwargs.Reference.{Key, IsKey, write_format, unpack_keys, kwargs_unpack-means}

abbrev a : Key
a = record { before = b'(' ∷ []; first = b'a'; others = [] }

abbrev ph : Key
ph = record { before = b';' ∷ []; first = b'p'; others = b'h' ∷ [] }

abbrev arg : Key
arg = record { before = b';' ∷ b')' ∷ []; first = b'a'; others = b'r' ∷ b'g' ∷ [] }

abbrev dt_freq : Key
dt_freq = record {
  before = b';' ∷ [];
  first = b'd';
  others = b't' ∷ b'_' ∷ b'f' ∷ b'r' ∷ b'e' ∷ b'q' ∷ [];
}

-- `arg` is 7, and `dt_freq` is 9.
abbrev given : List (Str × ℕ)
given = (b'd' ∷ b't' ∷ b'_' ∷ b'f' ∷ b'r' ∷ b'e' ∷ b'q' ∷ [], 9) ∷ (b'a' ∷ b'r' ∷ b'g' ∷ [], 7) ∷ []

a-IsKey : IsKey a
unfolding is_punct is_word isvarchar
a-IsKey = record { punct = refl; word = refl; letter = refl }

ph-IsKey : IsKey ph
unfolding is_punct is_word isvarchar
ph-IsKey = record { punct = refl; word = refl; letter = refl }

arg-IsKey : IsKey arg
unfolding is_punct is_word isvarchar
arg-IsKey = record { punct = refl; word = refl; letter = refl }

dt_freq-IsKey : IsKey dt_freq
unfolding is_punct is_word isvarchar
dt_freq-IsKey = record { punct = refl; word = refl; letter = refl }

src_sin_format : write_format (a ∷ ph ∷ arg ∷ dt_freq ∷ []) (b';' ∷ []) ≡ (
    b'(' ∷ b'a' ∷ b';' ∷ b'p' ∷ b'h' ∷ b';' ∷ b')' ∷ b'a' ∷ b'r' ∷ b'g' ∷ b';' ∷ b'd' ∷ b't' ∷ b'_'
    ∷ b'f' ∷ b'r' ∷ b'e' ∷ b'q' ∷ b';' ∷ [])
unfolding write_format
src_sin_format = refl

kwargs_unpack-means_example :
    kwargs_unpack 6 given
      (write_format (a ∷ ph ∷ arg ∷ dt_freq ∷ []) (b';' ∷ []))
      (1 ∷ 2 ∷ 3 ∷ 4 ∷ [])
    ≡ returned (pos 0) (1 ∷ 2 ∷ 7 ∷ 9 ∷ [])
unfolding unpack_keys find_arg eq_str marks is_punct isvarchar
kwargs_unpack-means_example =
    kwargs_unpack-means given 6 a (ph ∷ arg ∷ dt_freq ∷ []) (b';' ∷ []) (1 ∷ 2 ∷ 3 ∷ 4 ∷ [])
      (omega arith) a-IsKey
      (ph-IsKey, omega arith, (arg-IsKey, omega arith, (dt_freq-IsKey, omega arith, tt))) refl
