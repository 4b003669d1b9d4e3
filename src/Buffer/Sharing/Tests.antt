-- ===== src/Buffer/Sharing/Tests.antt =====
-- Two threads on one ring of five bytes, and the theorems on sharing at the places that they reach.
use hiemal.Base.{ℕ, ◌≡◌, refl, false, [], ◌∷◌, arith, memcpy, tabulate}
use native.Mathlib.Decide.{ℕ_discrete}
use hiemal.Buffer.{
  rbuf_linear_bytes_write, rbuf_linear_bytes_read, buffer_n_write_bytes, buffer_n_read_bytes,
  rbuf_n_write_bytes, rbuf_n_read_bytes, set_buffer_state, set_rbuf_state,
}
use hiemal.Buffer.Io.{rbuf_store, rbuf_fetch, rbuf_advance, wake}
use hiemal.Buffer.Valid.{contents}
use hiemal.Buffer.Tests.{ring5, ring5-IsRing, bytes5, full5, full5-IsRing}
use hiemal.Buffer.Sharing.{
  lock_write, clamp_write, store, settle_write, lock_read, clamp_read, fetch, settle_read,
  wake_events, Shared, Pc, Move, release, System, pick, Steps, stay, later, opened,
}
use hiemal.Buffer.Sharing.Invariant.{Balanced}
use hiemal.Buffer.Sharing.Safety.{Steps-Balanced}
use hiemal.Buffer.Sharing.Atomic.{Served, queued, Steps-Served}
use hiemal.Buffer.Sharing.Counts.{buffer_n_read_bytes-mid_read}

-- A place that threads sharing `ring5` reach
record Run : Type 0 where
  last : System
  steps : Steps (opened ring5) last

-- Thread 1 is about to store two bytes.
storing : Run
unfolding ℕ_discrete
storing = record {
  last = _;
  steps =
      later (later stay (pick 1 (lock_write bytes5 2 refl (ground arith) (omega arith))))
        (pick 1 clamp_write);
}

-- It has left, and thread 0 is inside to read three.
reading : Run
unfolding wake storing ℕ_discrete set_buffer_state rbuf_store set_rbuf_state buffer_n_write_bytes
    rbuf_n_write_bytes rbuf_linear_bytes_write
reading = record {
  last = _;
  steps =
      later
        (later
          (later (later (later storing.steps (pick 1 store)) (pick 1 settle_write))
            (pick 1 (wake_events {n = 2} {fx = []} refl)))
          (pick 1 release))
        (pick 0 (lock_read (0 ∷ 0 ∷ 0 ∷ []) 3 refl (ground arith) (omega arith)));
}

-- It is done.
done : Run
unfolding wake reading storing ℕ_discrete set_buffer_state rbuf_advance rbuf_fetch memcpy
    set_rbuf_state buffer_n_read_bytes rbuf_n_read_bytes rbuf_n_write_bytes rbuf_store
    rbuf_linear_bytes_read rbuf_linear_bytes_write buffer_n_write_bytes
done = record {
  last = _;
  steps =
      later
        (later
          (later
            (later (later reading.steps (pick 0 clamp_read))
              (pick 0 (fetch {dest = 0 ∷ 0 ∷ 0 ∷ []} {got = 0 ∷ 1 ∷ 2 ∷ []} {n = 3} refl)))
            (pick 0 settle_read))
          (pick 0 (wake_events {n = 3} {fx = []} refl)))
        (pick 0 release);
}

done_test : (done.last.mem.taken ≡ 0 ∷ 1 ∷ 2 ∷ []) × (done.last.mem.written ≡ 0 ∷ 1 ∷ 2 ∷ [])
unfolding done reading storing rbuf_n_write_bytes buffer_n_write_bytes tabulate
done_test = (refl, refl)

Steps-Balanced_example : Balanced done.last.mem done.last.mem.buf
unfolding done reading storing set_buffer_state rbuf_advance rbuf_store set_rbuf_state
Steps-Balanced_example = Steps-Balanced ring5-IsRing refl done.steps refl

buffer_n_read_bytes-mid_read_example :
    (buffer_n_read_bytes (rbuf_advance full5 4) ≡ 5)
    × (buffer_n_read_bytes (set_buffer_state (rbuf_advance full5 4) b'r') ≡ 0)
buffer_n_read_bytes-mid_read_example = buffer_n_read_bytes-mid_read full5-IsRing refl

-- Thread 1 stores both of its bytes, since there is room for four.
Steps-Served_example :
    ((i : ℕ) (m : Shared) (p : Pc)
      → Move storing.last.mem (storing.last.pc i) m p
      → Served 5 (storing.last.pc i) storing.last.mem m)
    × (storing.last.mem.buf.locked ≡ false
        → contents storing.last.mem.buf ≡ queued storing.last.mem)
Steps-Served_example = Steps-Served ring5-IsRing refl storing.steps
