-- ===== src/Buffer.antt =====
-- src/core/buffer.c, include/intern/buffer.h and include/api/buffer.h: the byte buffer that sources,
-- sinks and threads share. A pointer into the memory area is its offset from `buf`, so `buf` is 0.
-- The children hold the descriptor set, the transfers, and the proofs.
pub mod Delete
pub mod Descriptors
pub mod Fetch
pub mod Finish
pub mod Init
pub mod Io
pub mod Queue
pub mod Refine
pub mod Linear
pub mod View
pub mod Valid
pub mod Tests
pub mod Sharing
pub mod Signals
pub mod Waiting
pub mod Store
pub mod Write
pub mod Read
use hiemal.Base.{
  ℕ, zero, suc, ◌+◌, ◌-◌, ◌%◌, ◌^◌, Bool, true, false, Option, none, some, List, [], ◌∷◌, ◌++◌, ltb,
  leb, ◌==◌, if◌then◌else◌, ◌>>=◌, Bytes, sub_u32, memcpy, slice, replicate,
}
use hiemal.Base.Int.{ℤ, pos, negsuc, ◌+ℤ◌, sub_ℕ, ltb_ℤ, rem, pos_part}
use hiemal.Event.{Event, ObjType}
use hiemal.Buffer.Descriptors.{FdSet, fd_set_init}

-- `buffer_type_t`
pub data BufferType : Type 0 where
  ring linear : BufferType

-- `buffer_state_t`
pub data BufferState : Type 0 where
  normal empty full : BufferState

-- `struct _buffer`, less `r` and `r_id`, which only a build with protobuf reads. `mem` is the area
-- behind `buf`; `locked` is the mutex; the event list is its sequence of events.
pub record Buffer : Type 0 where
  pub mem : Bytes
  pub buf_len_bytes : ℕ
  pub read_ptr : ℕ
  pub write_ptr : ℕ
  pub type : BufferType
  pub state : BufferState
  pub ext_buf : Bool
  pub fd_set : FdSet
  pub fd_hold : Bool
  pub locked : Bool
  pub event_list : List Event

-- `BAD_ARG`
abbrev pub bad_arg : ℕ
bad_arg = 0x105

unfoldable pub lbuf_n_write_bytes : Buffer → ℕ
lbuf_n_write_bytes b = elim b.type [ ring ↦ bad_arg | linear ↦ sub_u32 b.buf_len_bytes b.write_ptr ]

-- The difference of the pointers is a signed 64-bit number, and so is its remainder.
unfoldable pub rbuf_n_write_bytes : Buffer → ℕ
unfolding ◌+ℤ◌ rem
rbuf_n_write_bytes b = elim b.type [
  | linear ↦ bad_arg
  | ring ↦ elim b.state [
    | empty ↦ b.buf_len_bytes
    | full ↦ 0
    | normal ↦
        let diff = rem (sub_ℕ b.read_ptr b.write_ptr) b.buf_len_bytes in
        let diff = if ltb_ℤ diff (pos 0) then diff +ℤ pos b.buf_len_bytes else diff in
        pos_part diff % 2 ^ 32
  ]
]

unfoldable pub lbuf_n_read_bytes : Buffer → ℕ
lbuf_n_read_bytes b = elim b.type [ ring ↦ bad_arg | linear ↦ sub_u32 b.write_ptr b.read_ptr ]

unfoldable pub rbuf_n_read_bytes : Buffer → ℕ
unfolding rbuf_n_write_bytes
rbuf_n_read_bytes b = elim b.type [
  | linear ↦ bad_arg
  | ring ↦ sub_u32 b.buf_len_bytes (rbuf_n_write_bytes b)
]

-- Bytes that a write can store before it reaches the reader or the end of the area.
unfoldable pub rbuf_linear_bytes_write : Buffer → ℕ
rbuf_linear_bytes_write b = elim b.type [
  | linear ↦ bad_arg
  | ring ↦ elim b.state [
    | full ↦ 0
    | empty ↦ sub_u32 b.buf_len_bytes b.write_ptr
    | normal ↦
        if ltb b.write_ptr b.read_ptr
        then sub_u32 b.read_ptr b.write_ptr
        else sub_u32 b.buf_len_bytes b.write_ptr
  ]
]

unfoldable pub rbuf_linear_bytes_read : Buffer → ℕ
rbuf_linear_bytes_read b = elim b.type [
  | linear ↦ bad_arg
  | ring ↦ elim b.state [
    | full ↦ sub_u32 b.buf_len_bytes b.read_ptr
    | empty ↦ 0
    | normal ↦
        if ltb b.read_ptr b.write_ptr
        then sub_u32 b.write_ptr b.read_ptr
        else sub_u32 b.buf_len_bytes b.read_ptr
  ]
]

unfoldable pub buffer_reset : Buffer → Buffer
buffer_reset b = record b { read_ptr = 0; write_ptr = 0; state = empty }

-- `_set_lbuf_state`; its callers discard the return code, so the new buffer alone is modelled.
unfoldable pub set_lbuf_state : Buffer → Buffer
unfolding buffer_reset
set_lbuf_state b = elim b.type [
  | ring ↦ b
  | linear ↦
      if b.read_ptr == b.write_ptr
      then buffer_reset b
      else if b.write_ptr == b.buf_len_bytes
      then record b { state = full }
      else record b { state = normal }
]

-- A pointer that has reached the end of the area goes back by its length.
abbrev pub wrapped : ℕ → ℕ → ℕ
wrapped len p = if leb len p then p - len else p

-- `_set_rbuf_state`, with the mode as a character code
unfoldable pub set_rbuf_state : Buffer → ℕ → Buffer
set_rbuf_state b mode = elim b.type [
  | linear ↦ b
  | ring ↦
      let r = wrapped b.buf_len_bytes b.read_ptr in
      let w = wrapped b.buf_len_bytes b.write_ptr in
      if r == w
      then record b {
        read_ptr = r;
        write_ptr = w;
        state = if mode == b'r' then empty else if mode == b'w' then full else b.state;
      }
      else record b { read_ptr = r; write_ptr = w; state = normal }
]

unfoldable pub buffer_n_write_bytes : Buffer → ℕ
unfolding lbuf_n_write_bytes rbuf_n_write_bytes
buffer_n_write_bytes b = elim b.type [ linear ↦ lbuf_n_write_bytes b | ring ↦ rbuf_n_write_bytes b ]

unfoldable pub buffer_n_read_bytes : Buffer → ℕ
unfolding lbuf_n_read_bytes rbuf_n_read_bytes
buffer_n_read_bytes b = elim b.type [ linear ↦ lbuf_n_read_bytes b | ring ↦ rbuf_n_read_bytes b ]

unfoldable pub set_buffer_state : Buffer → ℕ → Buffer
unfolding set_lbuf_state set_rbuf_state
set_buffer_state b mode = elim b.type [ linear ↦ set_lbuf_state b | ring ↦ set_rbuf_state b mode ]

unfoldable pub buffer_set_rpos : Buffer → ℕ → Buffer
buffer_set_rpos b p = record b { read_ptr = p }

unfoldable pub buffer_set_wpos : Buffer → ℕ → Buffer
buffer_set_wpos b p = record b { write_ptr = p }

unfoldable pub buffer_set_state : Buffer → BufferState → Buffer
buffer_set_state b s = record b { state = s }

unfoldable pub buffer_size : Buffer → ℕ
buffer_size b = b.buf_len_bytes

-- `buffer_init_ext`: over memory that the caller owns. `junk` is the count that the descriptor set
-- finds in its fresh allocation.
unfoldable pub buffer_init_ext : ℕ → BufferType → Bytes → (junk : ℕ) → Buffer
buffer_init_ext n t raw junk = record {
  mem = raw;
  buf_len_bytes = n;
  read_ptr = 0;
  write_ptr = 0;
  type = t;
  state = empty;
  ext_buf = true;
  fd_set = fd_set_init junk;
  fd_hold = false;
  locked = false;
  event_list = [];
}

-- `buffer_init`: over a zeroed area of its own
unfoldable pub buffer_init : ℕ → BufferType → (junk : ℕ) → Buffer
unfolding buffer_init_ext
buffer_init n t junk = record (buffer_init_ext n t (replicate n 0) junk) { ext_buf = false }

unfoldable pub buffer_copy : Buffer → (junk : ℕ) → Buffer
unfolding buffer_init memcpy
buffer_copy src junk =
    let fresh = buffer_init src.buf_len_bytes src.type junk in
    record fresh {
      mem = memcpy fresh.mem 0 (slice src.mem 0 src.buf_len_bytes);
      read_ptr = src.read_ptr;
      write_ptr = src.write_ptr;
      state = src.state;
    }

-- `buffer_event_add`: only events on buffers may wait; none stands for the code -1.
unfoldable pub buffer_event_add : Buffer → Event → Option Buffer
buffer_event_add b e = elim e.obj_type [
  | ObjType.buffer ↦ some (record b { event_list = b.event_list ++ (e ∷ []) })
  | _ ↦ none
]
