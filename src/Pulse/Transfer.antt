-- ===== src/Pulse/Transfer.antt =====
-- The transfers of src/core/pulse.c between buffers and streams. The server is the sizes and pieces that it
-- answers with, in the order it is asked; `none` is a transfer that has not returned when the answers end, or a null
-- pointer that is followed. The lock of the main loop is not modelled.
use hiemal.Base.{
  ℕ, ◌+◌, ◌-◌, Option, none, some, List, [], ◌∷◌, ◌++◌, length, ltb, ◌==◌, if◌then◌else◌, ◌>>=◌,
  Bytes, slice,
}
use hiemal.Event.{Effect}
use hiemal.Buffer.{Buffer, buffer_n_write_bytes}
use hiemal.Buffer.Io.{buffer_read, buffer_write}

-- What a write leaves: the bytes counted, the buffer, what it sent, and the pieces handed to the stream
pub record Played : Type 0 where
  pub code : ℕ
  pub buf : Buffer
  pub effects : List Effect
  pub pieces : List Bytes

-- The loop of `_hm_pulse_io_write`, over the answers of `pa_stream_writable_size`; after a 0 it waits and asks
-- again. `bytes_written` is also the place of `pa_buf_itr` in the memory.
unfoldable pub write_loop :
    (sizes : List ℕ) → Bytes → (bytes_written n_bytes : ℕ) → Option (ℕ × List Bytes)
write_loop [] m written n_bytes = if n_bytes == 0 then some (written, []) else none
write_loop (size ∷ sizes) m written n_bytes =
    let writable = if ltb n_bytes size then n_bytes else size in
    let rest = write_loop sizes m (written + writable) (n_bytes - writable) in
    if n_bytes == 0
    then some (written, [])
    else if size == 0
    then rest
    else rest >>= λ r. some (r.0, slice m written writable ∷ r.1)

module _ (malloc : ℕ → Bytes) where
  unfoldable pub hm_pulse_io_write : (sizes : List ℕ) → Buffer → (n_bytes : ℕ) → Option Played
  unfolding write_loop
  hm_pulse_io_write sizes b n_bytes = buffer_read b (some (malloc n_bytes)) n_bytes >>= λ o.
      o.memory >>= λ m.
      let n = if ltb o.code n_bytes then o.code else n_bytes in
      write_loop sizes m 0 n >>= λ r.
      some (record { code = r.0; buf = o.buf; effects = o.effects; pieces = r.1 })

-- What `pa_stream_peek` answers: bytes, of which there may be none yet, or the length of a hole with a null pointer
pub data Fragment : Type 0 where
  bytes : Bytes → Fragment
  hole : ℕ → Fragment

-- What a read leaves, with the fragments that the stream still has
pub record Recorded : Type 0 where
  pub code : ℕ
  pub buf : Buffer
  pub effects : List Effect
  pub left : List Fragment

-- The loop of `_hm_pulse_io_read`: a fragment is dropped whole, however much of it was stored.
unfoldable pub read_loop :
    List Fragment → Buffer → (n_bytes total : ℕ) → List Effect → Option Recorded
read_loop [] b n_bytes total fx =
    if n_bytes == 0 then some (record { code = total; buf = b; effects = fx; left = [] }) else none
read_loop (hole n ∷ fs) b n_bytes total fx =
    if n_bytes == 0
    then some (record { code = total; buf = b; effects = fx; left = hole n ∷ fs })
    else none
read_loop (bytes xs ∷ fs) b n_bytes total fx =
    if n_bytes == 0
    then some (record { code = total; buf = b; effects = fx; left = bytes xs ∷ fs })
    else (let n = if ltb n_bytes (length xs) then n_bytes else length xs in
        buffer_write b xs n >>= λ o. read_loop fs o.buf (n_bytes - n) (total + n) (fx ++ o.effects))

unfoldable pub hm_pulse_io_read : List Fragment → Buffer → (n_bytes : ℕ) → Option Recorded
unfolding read_loop
hm_pulse_io_read fs b n_bytes =
    let room = buffer_n_write_bytes b in
    read_loop fs b (if ltb room n_bytes then room else n_bytes) 0 []
