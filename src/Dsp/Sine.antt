-- ===== src/Dsp/Sine.antt =====
-- `src_sin` of src/core/dsp.c from the point where `kwargs_unpack` has set its pointers. The operations of C on
-- `double`s and the sine of the C library are parameters, on the bytes of their operands.
pub mod Waves
use hiemal.Base.{
  ℕ, zero, suc, ◌+◌, ◌-◌, ◌*◌, ◌/◌, ◌%◌, ◌^◌, ◌≡◌, Option, some, List, [], ◌∷◌, ◌>>=◌, Bytes,
  memcpy, length, ltb, if◌then◌else◌,
}
use hiemal.Base.Int.{ℤ, pos, negsuc}
use hiemal.Event.{Effect}
use hiemal.Buffer.{Buffer}
use hiemal.Buffer.Io.{Outcome, buffer_write}

-- The operations on `double`s that the function uses, and the conversions of an `unsigned int`
pub record Doubles : Type 0 where
  pub double_of_unsigned : ℕ → Bytes
  pub unsigned_of_double : Bytes → ℕ
  pub add : Bytes → Bytes → Bytes
  pub mul : Bytes → Bytes → Bytes
  pub sin : Bytes → Bytes
  pub length-mul : (x y : Bytes) → length (mul x y) ≡ 8

-- What the pointers `a`, `dt_freq` and `ph` point at
pub record Wave : Type 0 where
  pub a : Bytes
  pub dt_freq : Bytes
  pub ph : Bytes

-- `unsigned int` to the `int` that is returned
abbrev pub as_int : ℕ → ℤ
as_int n = if ltb n (2 ^ 31) then pos n else negsuc (2 ^ 32 - 1 - n)

-- The value that is returned, the new value behind `arg`, the buffer, and what was sent
pub record Sounded : Type 0 where
  pub code : ℤ
  pub arg : ℕ
  pub buf : Buffer
  pub effects : List Effect

module _ (c : Doubles) (v : Wave) where
  -- `(*a) * sin((*dt_freq)*(i + *arg) + (*ph))`
  unfoldable pub sample : (i arg : ℕ) → Bytes
  sample i arg =
      c.mul v.a (c.sin (c.add (c.mul v.dt_freq (c.double_of_unsigned ((i + arg) % 2 ^ 32))) v.ph))

  -- `(*arg) += (*dt_freq)*n_samples`
  unfoldable pub advance : (arg n_samples : ℕ) → ℕ
  advance arg n =
      c.unsigned_of_double
        (c.add (c.double_of_unsigned arg) (c.mul v.dt_freq (c.double_of_unsigned n)))

  -- The loop, from the sample `i` on
  unfoldable pub fill_samples : (rounds i arg : ℕ) → Bytes → Bytes
  unfolding sample
  fill_samples zero i arg m = m
  fill_samples (suc k) i arg m = fill_samples k (i + 1) arg (memcpy m (i * 8) (sample i arg))

  unfoldable pub src_sin : (malloc : ℕ → Bytes) (arg n_bytes : ℕ) → Buffer → Option Sounded
  unfolding fill_samples advance
  src_sin malloc arg n_bytes b =
      buffer_write b (fill_samples (n_bytes / 8) 0 arg (malloc n_bytes)) n_bytes >>= λ o.
      some (record {
        code = as_int n_bytes;
        arg = advance arg (n_bytes / 8);
        buf = o.buf;
        effects = o.effects;
      })

  -- The samples from the `i`th on
  unfoldable pub waves : (n i arg : ℕ) → List Bytes
  waves zero i arg = []
  waves (suc k) i arg = sample i arg ∷ waves k (i + 1) arg
