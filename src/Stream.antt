-- ===== src/Stream.antt =====
-- src/core/stream.c: the loop that moves bytes from a source, through an optional filter, to a sink. The
-- operations of sources, filters and sinks come from code that the build generates, and are parameters over
-- a state of their own; so is `realloc`, which is taken to succeed, and the readings of the clock.
pub mod Deliver
mod Tests
use hiemal.Base.{
  ℕ, zero, suc, ◌+◌, Bool, true, false, Option, none, some, List, [], ◌∷◌, length, ltb,
  if◌then◌else◌, ◌>>=◌, Bytes, memcpy, slice, replicate,
}
use hiemal.Format.{Signature, Floats, same_type, format_convert, convert_bytes_available}

-- The generated operations. A run of a source or a filter returns the areas that it was given.
pub record Operations (W : Type 0) : Type 0 where
  pub bytes_readable : W → ℕ × W
  pub bytes_writable : W → ℕ × W
  pub source_run : (buf : Bytes) → ℕ → W → Bytes × W
  pub dsp_run : (buf tmp : Bytes) → ℕ → W → Bytes × Bytes × W
  pub sink_run : (buf : Bytes) → ℕ → W → W
  pub realloc : Bytes → ℕ → Bytes

-- `input_type` and `output_type` of a filter
pub record Dsp : Type 0 where
  pub input_type : Signature
  pub output_type : Signature

-- `struct hm_stream`: the formats of the operations that are attached
pub record Stream : Type 0 where
  pub src : Signature
  pub dsp : Option Dsp
  pub sink : Signature

-- The pointers of a `struct hm_stream` to operations of sources, filters and sinks; `none` is null.
pub record Attached (A B C : Type 0) : Type 0 where
  pub src : Option A
  pub dsp : Option B
  pub sink : Option C

module _ {A B C : Type 0} where
  unfoldable pub stream_init_empty : Attached A B C
  stream_init_empty = record { src = none; dsp = none; sink = none }

  unfoldable pub stream_init : Option A → Option C → Option B → Attached A B C
  unfolding stream_init_empty
  stream_init src sink dsp = record (stream_init_empty) { src = src; sink = sink; dsp = dsp }

  unfoldable pub stream_attach_source : Attached A B C → Option A → Attached A B C
  stream_attach_source s src = record s { src = src }

  unfoldable pub stream_attach_dsp : Attached A B C → Option B → Attached A B C
  stream_attach_dsp s dsp = record s { dsp = dsp }

  unfoldable pub stream_attach_sink : Attached A B C → Option C → Attached A B C
  stream_attach_sink s sink = record s { sink = sink }

  -- What is left behind the handle, and whether the function returns a value: on a null pointer it ends
  -- without one.
  unfoldable pub stream_delete : Option (Attached A B C) → Option (Attached A B C) × Bool
  stream_delete none = (none, false)
  stream_delete (some s) = (none, true)

pub data Ran (W : Type 0) : Type 0 where
  done : W → Ran W
  aborted : Ran W
  running : Ran W

abbrev pub from_option : {W : Type 0} → Option W → Ran W
from_option none = aborted
from_option (some w) = done w

abbrev pub then_run : {W : Type 0} → Option W → (W → Ran W) → Ran W
then_run none k = aborted
then_run (some w) k = k w

module _ {W : Type 0} (c : Floats) (o : Operations W) where
  -- The conversion of what the source wrote to the format `to`: the two areas and the number of bytes
  unfoldable pub adapt : (from to : Signature) → (buf tmp : Bytes) → ℕ → Option (Bytes × Bytes × ℕ)
  unfolding same_type
  adapt from to buf tmp n =
      if same_type from.sample_format to.sample_format
      then some (buf, tmp, n)
      else convert_bytes_available c from.sample_format to.sample_format n >>= λ m.
          let tmp' = if ltb n m then o.realloc tmp m else tmp in
          let buf' = if ltb n m then o.realloc buf m else buf in
          format_convert c buf' from tmp' to n >>= λ r. some (memcpy buf' 0 (slice r.1 0 m), r.1, m)

  -- What follows the filter. The formats that are given to the conversion are those of the other side.
  unfoldable pub adapt_back : (s : Stream) → (d : Dsp) → (buf tmp : Bytes) → ℕ → Option (Bytes × ℕ)
  unfolding same_type
  adapt_back s d buf tmp n =
      if same_type d.output_type.sample_format s.sink.sample_format
      then some (memcpy buf 0 (slice tmp 0 n), n)
      else convert_bytes_available c d.output_type.sample_format s.sink.sample_format n >>= λ m.
          let tmp' = if ltb n m then o.realloc tmp m else tmp in
          let buf' = if ltb n m then o.realloc buf m else buf in
          format_convert c tmp' s.src buf' d.input_type n >>= λ r. some (r.1, m)

  -- `bytes_available` of a round
  unfoldable pub available : W → ℕ × W
  available w =
      let (sb, w) = o.bytes_readable w in
      let (db, w) = o.bytes_writable w in (if ltb sb db then sb else db, w)

  -- A round without a filter, and one with it
  unfoldable pub round_plain : Stream → W → Option W
  unfolding available adapt
  round_plain s w =
      let (n, w) = available w in
      let (buf, w) = o.source_run (replicate n 0) n w in
      adapt s.src s.sink buf (replicate n 0) n >>= λ r. some (o.sink_run r.0 r.2 w)

  unfoldable pub round_dsp : Stream → Dsp → W → Option W
  unfolding available adapt adapt_back
  round_dsp s d w =
      let (n, w) = available w in
      let (buf, w) = o.source_run (replicate n 0) n w in
      adapt s.src d.input_type buf (replicate n 0) n >>= λ r.
      let (buf, tmp, w) = o.dsp_run r.0 r.1 r.2 w in
      adapt_back s d buf tmp r.2 >>= λ r. some (o.sink_run r.0 r.1 w)

  unfoldable pub round : Stream → W → Option W
  unfolding round_plain round_dsp
  round s w = elim s.dsp [ none ↦ round_plain s w | some d ↦ round_dsp s d w ]

  -- `hm_stream_run`, for the elapsed times that are read after each round; `running` when there are no more.
  unfoldable pub stream_run : Stream → (msec elapsed : ℕ) → List ℕ → W → Ran W
  unfolding round
  stream_run s msec elapsed [] w = if ltb elapsed msec then running else done w
  stream_run s msec elapsed (t ∷ ts) w =
      let rest = λ (w : W). stream_run s msec t ts w in
      if ltb elapsed msec then then_run (round s w) rest else done w
