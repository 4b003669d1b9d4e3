-- ===== src/Dsp/Samples.antt =====
-- `pcm16_to_double`, `double_to_pcm16` and `src_sin` of src/core/dsp.c, which move samples through
-- buffers. The floating-point operations of the machine are parameters, on the bytes of their operands. No call has one buffer as source
-- and destination. The first two functions have no return value where they succeed.
use hiemal.Base.{
  ℕ, zero, suc, ◌/◌, ◌≡◌, Option, none, some, List, [], ◌∷◌, ◌++◌, length, ◌>>=◌, Bytes,
}
use hiemal.Event.{Effect}
use hiemal.Buffer.{Buffer}
use hiemal.Buffer.Io.{buffer_write, buffer_read}

-- The variable that each sample is read into, the two buffers, and what was sent
pub record Moving : Type 0 where
  pub sample : Bytes
  pub src : Buffer
  pub dest : Buffer
  pub effects : List Effect

-- The result of a call: the code `MISSING_IMPL`, or the buffers
pub data Converted : Type 0 where
  missing_impl : Converted
  converted : Moving → Converted

-- What the caller's variable holds after a read, which was given it
abbrev pub variable : Option Bytes → Bytes
variable none = []
variable (some x) = x

-- The loop, for as many rounds. `size` is that of a sample in the source, and `out_size` of what `f`
-- makes of it.
module _ (f : Bytes → Bytes) (size out_size : ℕ) where
  unfoldable pub move_samples : (rounds : ℕ) → Moving → Option Moving
  move_samples zero m = some m
  move_samples (suc k) m = buffer_read m.src (some m.sample) size >>= (λ r.
      buffer_write m.dest (f (variable r.memory)) out_size >>= (λ w. move_samples k (record {
        sample = variable r.memory;
        src = r.buf;
        dest = w.buf;
        effects = m.effects ++ r.effects ++ w.effects;
      })))

  -- The guard and the loop; `junk` is what the variable holds at first.
  unfoldable pub convert_impl :
      (junk : Bytes) (n_samples : ℕ) (inputs outputs : List Buffer) → Option Converted
  unfolding move_samples
  convert_impl junk n (src ∷ []) (dest ∷ []) =
      move_samples n (record { sample = junk; src = src; dest = dest; effects = [] })
      >>= (λ m. some (converted m))
  convert_impl junk n _ _ = some missing_impl

-- The operations of C that the two functions use, on the bytes of an `uint16_t`, a `float` and a `double`: the
-- conversions, `/` of `float`s and `*` of `double`s
pub record Samples : Type 0 where
  pub float_of_uint16 : Bytes → Bytes
  pub float_of_int : ℕ → Bytes
  pub float_div : Bytes → Bytes → Bytes
  pub double_of_float : Bytes → Bytes
  pub double_of_int : ℕ → Bytes
  pub double_mul : Bytes → Bytes → Bytes
  pub uint16_of_double : Bytes → Bytes
  pub length-double_of_float : (x : Bytes) → length (double_of_float x) ≡ 8
  pub length-uint16_of_double : (x : Bytes) → length (uint16_of_double x) ≡ 2

module _ (c : Samples) where
  -- `((float)pcm_sample) / 0x8000`, as a `double`
  unfoldable pub to_double : Bytes → Bytes
  to_double x = c.double_of_float (c.float_div (c.float_of_uint16 x) (c.float_of_int 32768))

  -- `(uint16_t)(float_sample * 0x8000)`
  unfoldable pub to_pcm16 : Bytes → Bytes
  to_pcm16 d = c.uint16_of_double (c.double_mul d (c.double_of_int 32768))

  pub length-to_double : (x : Bytes) → length (to_double x) ≡ 8
  unfolding to_double
  length-to_double x = c.length-double_of_float _

  pub length-to_pcm16 : (x : Bytes) → length (to_pcm16 x) ≡ 2
  unfolding to_pcm16
  length-to_pcm16 d = c.length-uint16_of_double _

  unfoldable pub pcm16_to_double :
      (junk : Bytes) (n_bytes : ℕ) (inputs outputs : List Buffer) → Option Converted
  unfolding convert_impl
  pcm16_to_double junk n_bytes = convert_impl to_double 2 8 junk (n_bytes / 2)

  unfoldable pub double_to_pcm16 :
      (junk : Bytes) (n_bytes : ℕ) (inputs outputs : List Buffer) → Option Converted
  unfolding convert_impl
  double_to_pcm16 junk n_bytes = convert_impl to_pcm16 8 2 junk (n_bytes / 8)
