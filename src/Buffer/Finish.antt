-- ===== src/Buffer/Finish.antt =====
-- What ends every transfer of a ring buffer in src/core/buffer.c: state, waiting events, mutex.
use hiemal.Base.{ℕ, ◌-◌, ◌≡◌, refl, Option, none, some, [], arith, Bytes, memcpy, true}
use hiemal.Event.{IoType, IoEvent}
use hiemal.Event.Wake.{wakes, buffer_wake-wakes}
use hiemal.Buffer.{Buffer, ring, set_rbuf_state, set_buffer_state}
use hiemal.Buffer.Io.{outcome, unlock, wake, finish, deliver}
use hiemal.Buffer.Valid.{IsRing, used, buffer_n_read_bytes-eq, buffer_n_write_bytes-eq}

-- The record that a transfer of `n` bytes announces, from the buffer that it leaves
abbrev pub announced : Buffer → ℕ → IoEvent
announced b n = record {
  io_type = IoType.write;
  n_bytes_transferred = n;
  n_bytes_readable = used b;
  n_bytes_writeable = b.buf_len_bytes - used b;
}

-- What no transfer changes
pub record SameSettings (b b' : Buffer) : Type 0 where
  pub len : b'.buf_len_bytes ≡ b.buf_len_bytes
  pub fd_set : b'.fd_set ≡ b.fd_set
  pub fd_hold : b'.fd_hold ≡ b.fd_hold
  pub event_list : b'.event_list ≡ b.event_list
  pub ext_buf : b'.ext_buf ≡ b.ext_buf

wake_info : {b : Buffer} → IsRing b → (n : ℕ) → wake b n ≡ some (wakes (announced b n) b.event_list)
unfolding wake
wake_info {b} v n = ground (
  arith,
  buffer_n_read_bytes-eq v,
  buffer_n_write_bytes-eq v,
  buffer_wake-wakes b.event_list (announced b n),
)

pub set_buffer_state-ring :
    (b : Buffer) (mode : ℕ) → b.type ≡ ring → set_buffer_state b mode ≡ set_rbuf_state b mode
unfolding set_buffer_state
set_buffer_state-ring b mode t = ground arith

pub finish-ring :
    (b : Buffer) (mode n : ℕ) (dest : Option Bytes)
    → b.type ≡ ring
    → IsRing (set_rbuf_state b mode)
    → let b' = set_rbuf_state b mode in
      finish b mode n dest
      ≡ some (outcome n (unlock b') dest (wakes (announced b' n) b'.event_list))
unfolding finish
finish-ring b mode n dest t v = simp (set_buffer_state-ring b mode t, wake_info v n)

abbrev pub held : Buffer → Buffer
held b = record b { locked = true }

pub held-IsRing : {b : Buffer} → IsRing b → IsRing (held b)
held-IsRing v = ground arith

pub unlock-IsRing : {b : Buffer} → IsRing b → IsRing (unlock b)
unlock-IsRing v = ground arith

pub deliver-nil : (dest : Option Bytes) → deliver dest 0 [] ≡ dest
unfolding memcpy
deliver-nil none = refl
deliver-nil (some out) = refl
