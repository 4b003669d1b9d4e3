-- ===== src/Format.antt =====
-- src/core/format.c and include/intern/format.h: sample formats and the conversion of samples. The two
-- conversions of one sample are floating-point arithmetic, and are parameters, on the bytes of a sample.
pub mod Convert
pub mod Tests
use hiemal.Base.{
  ℕ, zero, suc, ◌+◌, ◌*◌, ◌/◌, ◌≡◌, Bool, true, false, ◌&&◌, Option, none, some, List, length, ltb,
  ◌==◌, if◌then◌else◌, ◌>>=◌, Bytes, memcpy, slice,
}

-- `hm_format_type`
pub data FormatType : Type 0 where
  default_format s16le f32le : FormatType

-- `hm_format_signature`
pub record Signature : Type 0 where
  pub sample_format : FormatType
  pub fs : ℕ
  pub n_channels : ℕ
  pub interleaved : Bool

abbrev pub format_default : Signature
format_default = record { sample_format = s16le; fs = 44100; n_channels = 1; interleaved = false }

-- `none` is a function that ends with no value, as at `DEFAULT_FORMAT`.
unfoldable pub bytes_per_sample : FormatType → Option ℕ
bytes_per_sample default_format = none
bytes_per_sample s16le = some 2
bytes_per_sample f32le = some 4

unfoldable pub bytes_per_frame : Signature → Option ℕ
unfolding bytes_per_sample
bytes_per_frame f = bytes_per_sample f.sample_format >>= (λ n. some (n * f.n_channels))

unfoldable pub bytes_per_second : Signature → Option ℕ
unfolding bytes_per_frame
bytes_per_second f = bytes_per_frame f >>= (λ n. some (n * f.fs))

unfoldable pub same_type : FormatType → FormatType → Bool
same_type default_format default_format = true
same_type s16le s16le = true
same_type f32le f32le = true
same_type _ _ = false

abbrev pub eq_bool : Bool → Bool → Bool
eq_bool true b = b
eq_bool false true = false
eq_bool false false = true

-- `hm_format_signature_equal`
unfoldable pub signature_equal : Signature → Signature → Bool
unfolding same_type
signature_equal a b =
    same_type a.sample_format b.sample_format
    && eq_bool a.interleaved b.interleaved
    && a.n_channels == b.n_channels
    && same_type a.sample_format b.sample_format

-- The arithmetic of floats: the bytes of a converted sample, and a count as a `float`
pub record Floats : Type 0 where
  pub s16_to_f32 : Bytes → Bytes
  pub f32_to_s16 : Bytes → Bytes
  pub of_count : ℕ → ℕ
  pub length-s16_to_f32 : (x : Bytes) → length (s16_to_f32 x) ≡ 4
  pub length-f32_to_s16 : (x : Bytes) → length (f32_to_s16 x) ≡ 2

module _ (c : Floats) where
  -- One sample; `none` is the call of `hm_error_unreachable`, which aborts.
  unfoldable pub convert_sample : FormatType → FormatType → Bytes → Option Bytes
  convert_sample s16le f32le x = some (c.s16_to_f32 x)
  convert_sample f32le s16le x = some (c.f32_to_s16 x)
  convert_sample default_format t x = none
  convert_sample s16le default_format x = none
  convert_sample s16le s16le x = none
  convert_sample f32le default_format x = none
  convert_sample f32le f32le x = none

  -- The loop of `hm_format_convert`; the fuel is the number of bytes to write.
  unfoldable pub convert_loop :
      (from to : FormatType) (ss ds : ℕ)
      → (fuel total written at : ℕ) → (src dest : Bytes) → Option (ℕ × Bytes)
  unfolding convert_sample
  convert_loop from to ss ds zero total written at src dest = none
  convert_loop from to ss ds (suc k) total written at src dest =
      let rest = λ (x : Bytes).
        convert_loop from to ss ds k total (written + ds) (at + ss) src (memcpy dest written x) in
      if ltb written total
      then convert_sample from to (slice src at ss) >>= rest
      else some (written, dest)

  -- The number of bytes written, and the area behind `dest`
  unfoldable pub format_convert :
      (src : Bytes) → Signature → (dest : Bytes) → Signature → ℕ → Option (ℕ × Bytes)
  unfolding same_type convert_loop bytes_per_sample
  format_convert src from dest to n_bytes = bytes_per_sample to.sample_format >>= λ ds.
      bytes_per_sample from.sample_format >>= λ ss.
      let total = n_bytes * (ds / ss) in
      if same_type from.sample_format to.sample_format
      then some (n_bytes, memcpy dest 0 (slice src 0 n_bytes))
      else convert_loop from.sample_format to.sample_format ss ds (total + 1) total 0 0 src dest

  -- The rate is an integer quotient before it becomes a float.
  unfoldable pub convert_bytes_available : (from to : FormatType) → ℕ → Option ℕ
  unfolding bytes_per_sample
  convert_bytes_available from to n_bytes = bytes_per_sample to >>= λ ds.
      bytes_per_sample from >>= λ ss. some (c.of_count n_bytes * (ds / ss))
