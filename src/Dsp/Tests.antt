-- ===== src/Dsp/Tests.antt =====
-- Samples between small rings.
use hiemal.Base.{
  ℕ, ◌+◌, ◌-◌, ◌*◌, ◌%◌, ◌++◌, ◌≡◌, refl, some, [], ◌∷◌, Bytes, memcpy, take, drop, replicate,
  length, length-memcpy, arith, map, tabulate, if◌then◌else◌, ◌==◌,
}
use hiemal.Base.Pieces.{concat}
use hiemal.Buffer.{Buffer, empty}
use hiemal.Buffer.Valid.{contents}
use hiemal.Buffer.Tests.{full5, full5-IsRing}
use hiemal.Io.Transfer.{IsIdle}
use hiemal.Dsp.Samples.{Samples, to_double, Moving, converted, pcm16_to_double, double_to_pcm16}
use hiemal.Dsp.Moves.{samples, room, HasMoved, pcm16_to_double-HasMoved}
use hiemal.Dsp.Sine.{Doubles, Wave}
use hiemal.Dsp.RoundTrip.{double_to_pcm16-pcm16_to_double}

-- Numbers as the two bytes of a whole number and how often it is halved; a constant is one number.
abbrev halved : Bytes → Bytes → Bytes
halved (a ∷ b ∷ h ∷ r) (n ∷ []) = if n == 32768 then a ∷ b ∷ (h + 15) ∷ r else []
halved _ _ = []

abbrev doubled : Bytes → Bytes → Bytes
doubled (a ∷ b ∷ h ∷ r) (n ∷ []) = if n == 32768 then a ∷ b ∷ (h - 15) ∷ r else []
doubled _ _ = []

abbrev widened : Samples
widened = record {
  float_of_uint16 = λ x. x ++ 0 ∷ 0 ∷ [];
  float_of_int = λ n. n ∷ [];
  float_div = halved;
  double_of_float = λ x. memcpy (replicate 8 0) 0 (take 8 x);
  double_of_int = λ n. n ∷ [];
  double_mul = doubled;
  uint16_of_double = λ x. memcpy (replicate 2 0) 0 (take 2 x);
  length-double_of_float = λ x. length-memcpy (replicate 8 0) 0 (take 8 x);
  length-uint16_of_double = λ x. length-memcpy (replicate 2 0) 0 (take 2 x);
}

widened_scaled :
    (x : Bytes)
    → length x ≡ 2
    → doubled (widened.double_of_float (halved (x ++ 0 ∷ 0 ∷ []) (32768 ∷ []))) (32768 ∷ [])
      ≡ widened.double_of_float (x ++ 0 ∷ 0 ∷ [])
unfolding memcpy
widened_scaled [] l = absurd (omega arith)
widened_scaled (a ∷ []) l = absurd (omega arith)
widened_scaled (a ∷ b ∷ []) l = refl
widened_scaled (a ∷ b ∷ c ∷ xs) l = absurd (omega arith)

widened_whole :
    (x : Bytes)
    → length x ≡ 2
    → widened.uint16_of_double (widened.double_of_float (x ++ 0 ∷ 0 ∷ [])) ≡ x
unfolding memcpy
widened_whole [] l = absurd (omega arith)
widened_whole (a ∷ []) l = absurd (omega arith)
widened_whole (a ∷ b ∷ []) l = refl
widened_whole (a ∷ b ∷ c ∷ xs) l = absurd (omega arith)

abbrev ring20 : Buffer
ring20 = record full5 {
  mem = replicate 20 0;
  buf_len_bytes = 20;
  read_ptr = 6;
  write_ptr = 6;
  state = empty;
}

ring20-IsIdle : IsIdle ring20
ring20-IsIdle = record { valid = ground arith; unlocked = refl }

full5-IsIdle : IsIdle full5
full5-IsIdle = record { valid = full5-IsRing; unlocked = refl }

pcm16_to_double-HasMoved_example :
    (m : Moving) × (pcm16_to_double widened (7 ∷ 7 ∷ []) 5 (full5 ∷ []) (ring20 ∷ [])
      ≡ some (converted m))
    × HasMoved
        (record { sample = 7 ∷ 7 ∷ []; src = full5; dest = ring20; effects = [] })
        m
        (drop 4 (contents full5))
        (concat (map (to_double widened) (samples 2 2 (7 ∷ 7 ∷ []) (contents full5))))
pcm16_to_double-HasMoved_example =
    pcm16_to_double-HasMoved widened 5 (7 ∷ 7 ∷ []) full5 ring20 full5-IsIdle ring20-IsIdle refl

double_to_pcm16-pcm16_to_double_example :
    (m1 : Moving) × (m2 : Moving) × (pcm16_to_double widened
        (7 ∷ 7 ∷ [])
        4
        (full5 ∷ [])
        (ring20 ∷ [])
      ≡ some (converted m1))
    × (double_to_pcm16 widened (replicate 8 9) 16 (m1.dest ∷ []) (ring20 ∷ [])
        ≡ some (converted m2))
    × (contents m1.src ≡ drop 4 (contents full5))
    × (contents m2.dest ≡ contents ring20 ++ take (room ring20) (take 4 (contents full5)))
unfolding tabulate
double_to_pcm16-pcm16_to_double_example =
    double_to_pcm16-pcm16_to_double widened
      (record { scaled = widened_scaled; whole = widened_whole }) 2 full5 ring20 ring20 (7 ∷ 7 ∷ [])
      (replicate 8 9) full5-IsIdle ring20-IsIdle ring20-IsIdle (omega arith) refl (omega arith) refl
      refl

-- Whole numbers as eight bytes, of which the first is the number
abbrev whole8 : ℕ → Bytes
whole8 n = n ∷ 0 ∷ 0 ∷ 0 ∷ 0 ∷ 0 ∷ 0 ∷ 0 ∷ []

abbrev head8 : Bytes → ℕ
head8 [] = 0
head8 (x ∷ xs) = x

abbrev wholes : Doubles
wholes = record {
  double_of_unsigned = whole8;
  unsigned_of_double = head8;
  add = λ x y. whole8 (head8 x + head8 y);
  mul = λ x y. whole8 (head8 x * head8 y);
  sin = λ x. whole8 (head8 x % 2);
  length-mul = λ x y. refl;
}

abbrev triple : Wave
triple = record { a = whole8 1; dt_freq = whole8 3; ph = whole8 0 }
