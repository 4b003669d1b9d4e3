-- ===== src/Buffer/Sharing/Invariant.antt =====
-- What holds of a shared ring between any two pieces.
use hiemal.Base.{ℕ, ◌-◌, ◌≤◌, ◌≡◌, ◌≢◌, true, false, ◌++◌, length, min}
use hiemal.Buffer.{Buffer, ring, set_rbuf_state}
use hiemal.Buffer.Valid.{IsRing, used, contents}
use hiemal.Buffer.Sharing.{
  Shared, Pc, idle, write_locked, write_clamped, stored, read_locked, read_clamped, fetched,
  settled, woken, System, inside,
}

-- `b` is a valid ring, and the bytes written are those taken followed by those that it holds.
pub record Balanced (s : Shared) (b : Buffer) : Type 0 where
  pub valid : IsRing b
  pub fifo : s.written ≡ s.taken ++ contents b

-- What holds while a thread is there: after its copying, of the ring that its next piece leaves.
abbrev pub IsSound : Shared → Pc → Type 0
IsSound s idle = Unit
IsSound s (write_locked src n) = Balanced s s.buf × (n ≢ 0) × (n ≤ length src)
IsSound s (write_clamped src asked n) =
    Balanced s s.buf
    × (n ≤ s.buf.buf_len_bytes - used s.buf)
    × (n ≤ length src)
    × (n ≡ 0 → used s.buf ≡ s.buf.buf_len_bytes)
    × (n ≡ min asked (s.buf.buf_len_bytes - used s.buf))
IsSound s (stored n) = (s.buf.type ≡ ring) × Balanced s (set_rbuf_state s.buf b'w')
IsSound s (read_locked dest n) = Balanced s s.buf × (n ≢ 0) × (n ≤ length dest)
IsSound s (read_clamped dest asked n) =
    Balanced s s.buf
    × (n ≤ used s.buf)
    × (n ≤ length dest)
    × (n ≡ 0 → used s.buf ≡ 0)
    × (n ≡ min asked (used s.buf))
IsSound s (fetched n) = (s.buf.type ≡ ring) × Balanced s (set_rbuf_state s.buf b'r')
IsSound s (settled n) = Balanced s s.buf
IsSound s woken = Balanced s s.buf

pub record Inv (s : System) : Type 0 where
  pub alone : (i j : ℕ) → inside (s.pc i) ≡ true → inside (s.pc j) ≡ true → i ≡ j
  pub holding : (i : ℕ) → inside (s.pc i) ≡ true → s.mem.buf.locked ≡ true
  pub held_by : s.mem.buf.locked ≡ true → (i : ℕ) × (inside (s.pc i) ≡ true)
  pub sound : (i : ℕ) → IsSound s.mem (s.pc i)
  pub unheld : s.mem.buf.locked ≡ false → Balanced s.mem s.mem.buf
