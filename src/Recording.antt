-- ===== src/Recording.antt =====
-- src/core/recording.c, with the list of buffers of src/protobuf/_c_wrap/hm_protobuf.cpp behind it, and the recording
-- call of `buffer_write` in src/core/buffer.c: the build with protobuf. `none` is a store past an array, a place that
-- is not in a list, or a call that never returns.
pub mod Snapshots
pub mod Room
mod Tests
use hiemal.Base.{
  ℕ, zero, suc, ◌+◌, Bool, true, false, Option, none, some, List, [], ◌∷◌, ◌++◌, length, get_or,
  set, replicate, ltb, ◌==◌, if◌then◌else◌, ◌>>=◌, Bytes, slice,
}
use hiemal.Base.Int.{ℤ, pos, negsuc}
use hiemal.Str.{Str}
use hiemal.Buffer.{Buffer}
use hiemal.Buffer.Io.{Outcome, buffer_write}

-- `buf_list` and `buf_snapshot` of src/protobuf/_c_wrap/buffer.proto, less the fields that nothing sets: the raw data
-- of the snapshots of each buffer
abbrev pub BufList : Type 0
BufList = List (List Bytes)

-- `_hm_pb_buflist_create`
abbrev pub buflist_create : BufList
buflist_create = []

-- `_hm_pb_buflist_add_buffer`
unfoldable pub buflist_add_buffer : BufList → BufList
buflist_add_buffer l = l ++ ([] ∷ [])

-- `_hm_pb_buffer_write`
unfoldable pub pb_buffer_write : BufList → (r_id : ℕ) → (src : Bytes) → ℕ → Option (ℤ × BufList)
pb_buffer_write l r_id src n =
    if ltb r_id (length l)
    then some (pos 0, set l r_id (get_or l r_id [] ++ (slice src 0 n ∷ [])))
    else none

-- `struct _recording`; a buffer is known by a number.
pub record Recording : Type 0 where
  pub filename : Str
  pub active : Bool
  pub buflist : BufList
  pub max_buffer : ℕ
  pub n_buffer : ℕ
  pub buffers : List ℕ

abbrev pub max_recording_buffers : ℕ
max_recording_buffers = 10

-- `junk` is what the array holds when it is allocated.
unfoldable pub recording_init : Str → (junk : ℕ) → Recording
recording_init filename junk = record {
  filename = filename;
  active = true;
  buflist = buflist_create;
  max_buffer = max_recording_buffers;
  n_buffer = 0;
  buffers = replicate max_recording_buffers junk;
}

abbrev pub recording_start : Recording → Recording
recording_start r = record r { active = true }

abbrev pub recording_stop : Recording → Recording
recording_stop r = record r { active = false }

abbrev pub recording_n_buffers : Recording → ℕ
recording_n_buffers r = r.n_buffer

-- A buffer with its `r_id`; `none` where `r` is null.
pub record RecordedBuffer : Type 0 where
  pub buf : Buffer
  pub r_id : Option ℕ

-- `buffer_add_recording`
abbrev pub buffer_add_recording : Buffer → Recording → RecordedBuffer
buffer_add_recording b r = record { buf = b; r_id = some (recording_n_buffers r) }

-- `hm_recording_buffer_add` of the buffer `b` with the number `p`
unfoldable pub recording_buffer_add :
    Recording → (p : ℕ) → Buffer → Option (RecordedBuffer × Recording)
unfolding buflist_add_buffer
recording_buffer_add r p b =
    if ltb r.n_buffer (length r.buffers)
    then some (
      buffer_add_recording b r,
      record r {
        buffers = set r.buffers r.n_buffer p;
        buflist = buflist_add_buffer r.buflist;
        n_buffer = suc r.n_buffer;
      },
    )
    else none

unfoldable pub recording_write : Recording → (r_id : ℕ) → (src : Bytes) → ℕ → Option (ℤ × Recording)
unfolding pb_buffer_write
recording_write r r_id src n =
    if r.active
    then (pb_buffer_write r.buflist r_id src n >>= λ w. some (w.0, record r { buflist = w.1 }))
    else some (negsuc 0, r)

-- `buffer_write` in the build with protobuf; it does not look at what the recording returns.
unfoldable pub recorded_write :
    Recording → RecordedBuffer → (src : Bytes) → ℕ → Option (Recording × RecordedBuffer × Outcome)
unfolding recording_write
recorded_write r b src n =
    elim b.r_id [ none ↦ some r | some r_id ↦ recording_write r r_id src n >>= λ w. some w.1 ]
    >>= λ r. buffer_write b.buf src n >>= λ o. some (r, record b { buf = o.buf }, o)

-- A recording with the buffers that were added, numbered in that order
pub record Session : Type 0 where
  pub recording : Recording
  pub buffers : ℕ → Option RecordedBuffer

pub data SessionCall : Type 0 where
  add : Buffer → SessionCall
  write : (k : ℕ) → (src : Bytes) → (n_bytes : ℕ) → SessionCall
  start stop : SessionCall

abbrev pub put_buffer : (ℕ → Option RecordedBuffer) → ℕ → RecordedBuffer → ℕ → Option RecordedBuffer
put_buffer bs k b j = if j == k then some b else bs j

unfoldable pub step : SessionCall → Session → Option Session
unfolding recording_buffer_add recorded_write
step (add b) s =
    let k = s.recording.n_buffer in
    recording_buffer_add s.recording k b >>= λ r.
    some (record { recording = r.1; buffers = put_buffer s.buffers k r.0 })
step (write k src n) s = s.buffers k >>= λ b. recorded_write s.recording b src n >>= λ r.
    some (record { recording = r.0; buffers = put_buffer s.buffers k r.1 })
step start s = some (record s { recording = recording_start s.recording })
step stop s = some (record s { recording = recording_stop s.recording })

unfoldable pub run : List SessionCall → Session → Option Session
unfolding step
run [] s = some s
run (c ∷ cs) s = step c s >>= run cs

-- A recording that was just made
abbrev pub session_of : Str → (junk : ℕ) → Session
session_of filename junk = record { recording = recording_init filename junk; buffers = λ _. none }
