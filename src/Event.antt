-- ===== src/Event.antt =====
-- src/core/event_unix.c and include/intern/event.h: events on buffers. A waiting thread holds the
-- read end of a pipe; a buffer operation writes the address of an event record to the write end.
pub mod Wake
pub mod Poll
pub mod Parity
mod Tests
use hiemal.Base.{
  ℕ, zero, suc, ◌+◌, ◌<◌, Bool, true, false, Option, none, some, List, [], ◌∷◌, length, get_elem?,
  ltb, if◌then◌else◌,
}
use hiemal.Base.Int.{ℤ, pos, negsuc}

-- `buffer_io_type_t`
pub data IoType : Type 0 where
  read write : IoType

-- `struct _buffer_io_event`
pub record IoEvent : Type 0 where
  pub io_type : IoType
  pub n_bytes_transferred : ℕ
  pub n_bytes_readable : ℕ
  pub n_bytes_writeable : ℕ

-- `enum hm_event_obj_type`
pub data ObjType : Type 0 where
  fd mutex futex buffer : ObjType

-- `struct _hm_event`: the tag, and the two ends of `obj.buf_pipe`. The condition is named by a
-- number, since the list code only carries it.
pub record Event : Type 0 where
  pub obj_type : ObjType
  pub pipe_read : ℤ
  pub pipe_write : ℤ
  pub cond : ℕ

-- What the library does to the descriptors of its clients.
pub data Effect : Type 0 where
  -- `write(fd, &n_bytes, 4)`
  fd_write : ℤ → ℕ → Effect
  -- the address of a fresh copy of the record, written to an event's pipe
  pipe_write : ℤ → IoEvent → Effect

-- `hm_event_init`: `ends` is what `pipe` stores; the union is left as it was for the other kinds.
unfoldable pub event_init : ObjType → ℕ → (ends junk : ℤ × ℤ) → Event
event_init t cond ends junk =
    let kept : ℤ × ℤ = elim t [ ObjType.buffer ↦ ends | _ ↦ junk ] in
    record { obj_type = t; pipe_read = kept.0; pipe_write = kept.1; cond = cond }

-- The descriptors that `hm_event_delete` closes
unfoldable pub event_delete : Event → List ℤ
event_delete e = elim e.obj_type [ ObjType.buffer ↦ e.pipe_read ∷ e.pipe_write ∷ [] | _ ↦ [] ]

-- The loop of `hm_event_buffer_wake` from index `i` on, with `rounds` rounds left; `none` is the
-- null pointer that `hm_list_at` would return past the end.
unfoldable pub wake_from : List Event → IoEvent → (rounds i : ℕ) → Option (List Effect)
wake_from l info zero i = some []
wake_from l info (suc k) i = elim (get_elem? l i) [
  | none ↦ none
  | some e ↦ elim (wake_from l info k (i + 1)) [
    | none ↦ none
    | some fx ↦ some (pipe_write e.pipe_write info ∷ fx)
  ]
]

-- `hm_event_buffer_wake`
unfoldable pub buffer_wake : List Event → IoEvent → Option (List Effect)
unfolding wake_from
buffer_wake l info = wake_from l info (length l) 0
