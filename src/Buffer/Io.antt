-- ===== src/Buffer/Io.antt =====
-- The transfers of src/core/buffer.c. `none` is a call that never returns: the mutex is an ordinary
-- one, so that a thread which locks it twice waits for itself. A result holds the return value, the
-- buffer, the memory that the caller passed, and what was sent to descriptors, in order.
use hiemal.Base.{
  ℕ, ◌+◌, ◌-◌, Bool, true, false, length, leb, Option, none, some, List, [], ◌++◌, ltb, ◌==◌,
  if◌then◌else◌, ◌>>=◌, Bytes, memcpy, slice, sub_u32,
}
use hiemal.Event.{Effect, IoType, buffer_wake}
use hiemal.Buffer.Descriptors.{signal_fds}
use hiemal.Buffer.{
  Buffer, ring, linear, empty, bad_arg, buffer_n_write_bytes, buffer_n_read_bytes,
  rbuf_linear_bytes_write, rbuf_linear_bytes_read, set_buffer_state,
}

pub record Outcome : Type 0 where
  pub code : ℕ
  pub buf : Buffer
  pub memory : Option Bytes
  pub effects : List Effect

abbrev pub outcome : ℕ → Buffer → Option Bytes → List Effect → Outcome
outcome n b m fx = record { code = n; buf = b; memory = m; effects = fx }

-- `thread_mutex_lock` and `thread_mutex_unlock`
abbrev pub lock : Buffer → Option Buffer
lock b = if b.locked then none else some (record b { locked = true })

abbrev pub unlock : Buffer → Buffer
unlock b = record b { locked = false }

-- The clamping of `PREPARE_BUF_WRITE` and `PREPARE_BUF_READ`.
abbrev pub clamped : ℕ → ℕ → ℕ
clamped available n = if ltb available n then available else n

-- `if (event_list->n_items > 0) hm_event_buffer_wake(…)`; every caller passes WRITE.
unfoldable pub wake : Buffer → ℕ → Option (List Effect)
wake b n = elim b.event_list [
  | [] ↦ some []
  | _ ↦ buffer_wake b.event_list (record {
    io_type = IoType.write;
    n_bytes_transferred = n;
    n_bytes_readable = buffer_n_read_bytes b;
    n_bytes_writeable = buffer_n_write_bytes b;
  })
]

-- What follows the copying in each transfer: the state, the waiting events, the mutex.
unfoldable pub finish : Buffer → (mode n : ℕ) → Option Bytes → Option Outcome
finish b mode n dest =
    let b' = set_buffer_state b mode in wake b' n >>= (λ fx. some (outcome n (unlock b') dest fx))

-- `_lbuf_write`
unfoldable pub lbuf_write : Buffer → Bytes → ℕ → Option Outcome
lbuf_write b src n_bytes = elim b.type [
  | ring ↦ some (outcome bad_arg b none [])
  | linear ↦
      if n_bytes == 0
      then some (outcome 0 b none [])
      else lock b >>= (λ b.
        let n = clamped (buffer_n_write_bytes b) n_bytes in
        finish
          (record b { mem = memcpy b.mem b.write_ptr (slice src 0 n); write_ptr = b.write_ptr + n })
          b'-' n none)
]

-- The copying of `_rbuf_write`, in one piece or in two
unfoldable pub rbuf_store : Buffer → Bytes → ℕ → Buffer
rbuf_store b src n =
    let k = rbuf_linear_bytes_write b in
    if ltb k n
    then record b {
      mem = memcpy (memcpy b.mem b.write_ptr (slice src 0 k)) 0 (slice src k (n - k));
      write_ptr = n - k;
    }
    else record b { mem = memcpy b.mem b.write_ptr (slice src 0 n); write_ptr = b.write_ptr + n }

-- `_rbuf_write`
unfoldable pub rbuf_write : Buffer → Bytes → ℕ → Option Outcome
rbuf_write b src n_bytes = elim b.type [
  | linear ↦ some (outcome bad_arg b none [])
  | ring ↦
      if n_bytes == 0
      then some (outcome 0 b none [])
      else lock b >>= (λ b.
        let n = clamped (buffer_n_write_bytes b) n_bytes in finish (rbuf_store b src n) b'w' n none)
]

-- The signals of `buffer_write`, unless they are held
unfoldable pub signalled : Outcome → Outcome
signalled o =
    if o.buf.fd_hold then o else record o { effects = o.effects ++ signal_fds o.buf.fd_set o.code }

unfoldable pub buffer_write : Buffer → Bytes → ℕ → Option Outcome
buffer_write b src n =
    elim b.type [ linear ↦ lbuf_write b src n | ring ↦ rbuf_write b src n ]
    >>= (λ o. some (signalled o))

-- A `memcpy` to the caller's memory, if it gave any
abbrev pub deliver : Option Bytes → ℕ → Bytes → Option Bytes
deliver none off xs = none
deliver (some m) off xs = some (memcpy m off xs)

-- Whether the caller's memory has room for what is copied, if it gave any
abbrev pub has_room : Option Bytes → ℕ → Bool
has_room none n = true
has_room (some m) n = leb n (length m)

-- `_lbuf_read`; `none` is also a copy past the end of the caller's memory.
unfoldable pub lbuf_read : Buffer → Option Bytes → ℕ → Option Outcome
lbuf_read b dest n_bytes = elim b.type [
  | ring ↦ some (outcome bad_arg b dest [])
  | linear ↦
      if n_bytes == 0
      then some (outcome 0 b dest [])
      else lock b >>= (λ b.
        let n = clamped (buffer_n_read_bytes b) n_bytes in
        let read =
          finish (record b { read_ptr = b.read_ptr + n }) b'-' n
            (deliver dest 0 (slice b.mem b.read_ptr n)) in
        if has_room dest n then read else none)
]

-- The copying of `_rbuf_read`
unfoldable pub rbuf_fetch : Buffer → Option Bytes → ℕ → Option Bytes
rbuf_fetch b dest n =
    let k = rbuf_linear_bytes_read b in
    if ltb k n
    then deliver (deliver dest 0 (slice b.mem b.read_ptr k)) k (slice b.mem 0 (n - k))
    else deliver dest 0 (slice b.mem b.read_ptr n)

-- The read pointer that `_rbuf_read` leaves
unfoldable pub rbuf_advance : Buffer → ℕ → Buffer
rbuf_advance b n =
    let k = rbuf_linear_bytes_read b in
    record b { read_ptr = if ltb k n then n - k else b.read_ptr + n }

-- `_rbuf_read`
unfoldable pub rbuf_read : Buffer → Option Bytes → ℕ → Option Outcome
rbuf_read b dest n_bytes = elim b.type [
  | linear ↦ some (outcome bad_arg b dest [])
  | ring ↦
      if n_bytes == 0
      then some (outcome 0 b dest [])
      else lock b >>= (λ b.
        let n = clamped (buffer_n_read_bytes b) n_bytes in
        finish (rbuf_advance b n) b'r' n (rbuf_fetch b dest n))
]

unfoldable pub buffer_read : Buffer → Option Bytes → ℕ → Option Outcome
buffer_read b dest n = elim b.type [ linear ↦ lbuf_read b dest n | ring ↦ rbuf_read b dest n ]

unfoldable pub buffer_view_raw : Buffer → Bytes → (offset n : ℕ) → Bytes
buffer_view_raw b dest offset n = memcpy dest 0 (slice b.mem offset n)

-- `buffer_view`: on a linear buffer it returns 0 and keeps the mutex.
unfoldable pub buffer_view : Buffer → Bytes → (offset n_bytes : ℕ) → Option Outcome
buffer_view b dest offset n_bytes = lock b >>= (λ b.
    let n = clamped (buffer_n_read_bytes b) n_bytes in
    elim b.type [
      | linear ↦ some (outcome 0 b (some (buffer_view_raw b dest offset n)) [])
      | ring ↦
          let k = sub_u32 (rbuf_linear_bytes_read b) offset in
          let out =
            if ltb k n
            then memcpy (memcpy dest 0 (slice b.mem (b.read_ptr + offset) k)) k
                (slice b.mem 0 (n - k))
            else memcpy dest 0 (slice b.mem (b.read_ptr + offset) n) in
          some (outcome n (unlock b) (some out) [])
    ])

unfoldable pub buffer_fd_hold : Buffer → Buffer
buffer_fd_hold b = record b { fd_hold = true }

unfoldable pub buffer_fd_release : Buffer → Buffer
buffer_fd_release b = record b { fd_hold = false }

unfoldable pub buffer_fd_drain : Buffer → List Effect
buffer_fd_drain b =
    let told = signal_fds b.fd_set (buffer_n_read_bytes b) in
    if b.fd_hold then [] else elim b.state [ empty ↦ [] | _ ↦ told ]
