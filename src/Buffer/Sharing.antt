-- ===== src/Buffer/Sharing.antt =====
-- Threads that share one ring of src/core/buffer.c, interleaved in any order: `_rbuf_write` and
-- `_rbuf_read` cut into the pieces between which another thread may run. Every piece but the first is
-- under the mutex. The signals to descriptors, which follow the unlock and do not touch the ring, are left to
-- `Buffer.Io`.
pub mod Invariant
pub mod Atomic
pub mod Counts
pub mod Moves
pub mod Safety
pub mod Tests
use hiemal.Base.{
  ℕ, ◌+◌, ◌≤◌, ◌<◌, ◌≡◌, ◌≢◌, Bool, true, false, some, List, [], ◌++◌, Bytes, length, slice, take,
}
use mathlib.Core.Logic.{ite}
use native.Mathlib.Decide.{ℕ_discrete}
use hiemal.Buffer.{Buffer, buffer_n_write_bytes, buffer_n_read_bytes, set_buffer_state}
use hiemal.Event.{Effect}
use hiemal.Buffer.Io.{unlock, clamped, wake, rbuf_store, rbuf_fetch, rbuf_advance}
use hiemal.Buffer.Valid.{contents}

-- The ring, the bytes that writers have stored in it since it was made, and the bytes that readers
-- have copied out of it, each in the order in which that happened; and what was written to the pipes of events
pub record Shared : Type 0 where
  pub buf : Buffer
  pub written : Bytes
  pub taken : Bytes
  pub effects : List Effect

-- Where a thread stands, with the arguments that are live there: `n` is `n_bytes`, and `asked` is what it was
-- when the function was called.
pub data Pc : Type 0 where
  idle : Pc  -- outside both functions, or waiting for the mutex
  write_locked : (src : Bytes) (n : ℕ) → Pc  -- in `PREPARE_BUF_WRITE`, the mutex held
  write_clamped : (src : Bytes) (asked n : ℕ) → Pc  -- after it
  stored : (n : ℕ) → Pc  -- before `set_buffer_state(dest, 'w')`
  read_locked : (dest : Bytes) (n : ℕ) → Pc
  read_clamped : (dest : Bytes) (asked n : ℕ) → Pc
  fetched : (n : ℕ) → Pc  -- before `set_buffer_state(src, 'r')`
  settled : (n : ℕ) → Pc  -- before the call of `hm_event_buffer_wake`
  woken : Pc  -- before `thread_mutex_unlock`

-- One piece of one thread. A call with no bytes does not touch the ring. `src` holds `n` bytes and
-- `dest` has room for as many. A thread may stay before any piece: for the mutex, and before `wake_events` for
-- as long as a pipe is full.
pub data Move (s : Shared) : Pc → Shared → Pc → Type 0 where
  lock_write :
      (src : Bytes) (n : ℕ)
      → s.buf.locked ≡ false
      → n ≢ 0
      → n ≤ length src
      → Move s idle (record s { buf = record s.buf { locked = true } }) (write_locked src n)
  clamp_write :
      {src : Bytes} {n : ℕ}
      → Move s (write_locked src n) s (write_clamped src n (clamped (buffer_n_write_bytes s.buf) n))
  store :
      {src : Bytes} {asked n : ℕ}
      → Move s
          (write_clamped src asked n)
          (record s { buf = rbuf_store s.buf src n; written = s.written ++ slice src 0 n })
          (stored n)
  settle_write :
      {n : ℕ} → Move s (stored n) (record s { buf = set_buffer_state s.buf b'w' }) (settled n)
  lock_read :
      (dest : Bytes) (n : ℕ)
      → s.buf.locked ≡ false
      → n ≢ 0
      → n ≤ length dest
      → Move s idle (record s { buf = record s.buf { locked = true } }) (read_locked dest n)
  clamp_read :
      {dest : Bytes} {n : ℕ}
      → Move s (read_locked dest n) s (read_clamped dest n (clamped (buffer_n_read_bytes s.buf) n))
  fetch :
      {dest got : Bytes} {asked n : ℕ}
      → rbuf_fetch s.buf (some dest) n ≡ some got
      → Move s
          (read_clamped dest asked n)
          (record s { buf = rbuf_advance s.buf n; taken = s.taken ++ take n got })
          (fetched n)
  settle_read :
      {n : ℕ} → Move s (fetched n) (record s { buf = set_buffer_state s.buf b'r' }) (settled n)
  wake_events :
      {n : ℕ} {fx : List Effect}
      → wake s.buf n ≡ some fx
      → Move s (settled n) (record s { effects = s.effects ++ fx }) woken
  release : Move s woken (record s { buf = unlock s.buf }) idle

pub record System : Type 0 where
  pub mem : Shared
  pub pc : ℕ → Pc

abbrev pub moved : (ℕ → Pc) → ℕ → Pc → ℕ → Pc
moved pc i p j = ite (ℕ_discrete i j) p (pc j)

pub data Step (s : System) : System → Type 0 where
  pick :
      (i : ℕ) {m : Shared} {p : Pc}
      → Move s.mem (s.pc i) m p
      → Step s (record { mem = m; pc = moved s.pc i p })

-- Any number of steps
pub data Steps (s : System) : System → Type 0 where
  stay : Steps s s
  later : {t u : System} → Steps s t → Step t u → Steps s u

-- No thread is inside, and the bytes already in the ring count as written.
abbrev pub opened : Buffer → System
opened b = record {
  mem = record { buf = b; written = contents b; taken = []; effects = [] };
  pc = λ _. Pc.idle;
}

-- Between the mutex's lock and its unlock
abbrev pub inside : Pc → Bool
inside idle = false
inside _ = true
