-- ===== src/Pulse/State.antt =====
-- How src/core/pulse.c waits for a stream or for the context to be ready: the state callbacks, which signal the main
-- loop, and the loops that wait for the signal. `none` is a call that still waits.
use hiemal.Base.{
  ℕ, zero, suc, Bool, true, false, Option, none, some, List, [], ◌∷◌, length, if◌then◌else◌, ◌>>=◌,
}

-- `pa_stream_state_t` and `pa_context_state_t`; `pending` stands for the states that the code does not name.
pub data PaState : Type 0 where
  pending ready failed terminated : PaState

-- What happens in the main loop while the thread waits: the object goes into a state, or the callback of a list, a
-- transfer or another object signals.
pub data LoopEvent : Type 0 where
  enters : PaState → LoopEvent
  signalled : LoopEvent

-- `state != PA_STREAM_READY` and `state != PA_CONTEXT_READY` fail.
abbrev pub is_ready : PaState → Bool
is_ready ready = true
is_ready _ = false

-- Whether `_hm_pulse_stream_state_cb` signals, and `_hm_pulse_context_state_cb`
unfoldable pub stream_state_cb : PaState → Bool
stream_state_cb ready = true
stream_state_cb terminated = true
stream_state_cb failed = true
stream_state_cb pending = false

unfoldable pub context_state_cb : PaState → Bool
context_state_cb ready = true
context_state_cb terminated = true
context_state_cb failed = true
context_state_cb pending = false

-- What becomes of the state while the main loop goes on with some events, and the events after them
unfoldable pub handle : ℕ → PaState → List LoopEvent → PaState × List LoopEvent
handle zero now es = (now, es)
handle (suc d) now [] = (now, [])
handle (suc d) now (enters s ∷ es) = handle d s es
handle (suc d) now (signalled ∷ es) = handle d now es

module _ (state_cb : PaState → Bool) where
  -- `pa_threaded_mainloop_wait` returns after the first signal: the state then, and what is still to happen. The
  -- signal, which does not wait to be accepted, only makes the thread ready to run: the main loop may keep the lock
  -- for `delay` more events.
  unfoldable pub mainloop_wait :
      (delay : ℕ) → PaState → List LoopEvent → Option (PaState × List LoopEvent)
  unfolding handle
  mainloop_wait d now [] = none
  mainloop_wait d now (signalled ∷ es) = some (handle d now es)
  mainloop_wait d now (enters s ∷ es) =
      let rest = mainloop_wait d s es in if state_cb s then some (handle d s es) else rest

  -- The `while` loop; `delays` tells the delay of each wait.
  unfoldable pub wait_ready :
      (delays : ℕ → ℕ) (fuel : ℕ) → PaState → List LoopEvent → Option (List LoopEvent)
  unfolding mainloop_wait
  wait_ready delays zero now es = none
  wait_ready delays (suc k) now es =
      if is_ready now
      then some es
      else (mainloop_wait (delays k) now es >>= λ w. wait_ready delays k w.0 w.1)

-- `hm_pulse_bytes_readable` and `hm_pulse_bytes_writable`, for the size that libpulse then gives
unfoldable pub hm_pulse_bytes_readable :
    (delays : ℕ → ℕ) → PaState → List LoopEvent → (size : ℕ) → Option ℕ
unfolding wait_ready
hm_pulse_bytes_readable delays now es size =
    wait_ready stream_state_cb delays (suc (length es)) now es >>= λ _. some size

unfoldable pub hm_pulse_bytes_writable :
    (delays : ℕ → ℕ) → PaState → List LoopEvent → (size : ℕ) → Option ℕ
unfolding wait_ready
hm_pulse_bytes_writable delays now es size =
    wait_ready stream_state_cb delays (suc (length es)) now es >>= λ _. some size

-- The wait for the context in `hm_pulse_connection_init`
unfoldable pub context_wait : (delays : ℕ → ℕ) → PaState → List LoopEvent → Option (List LoopEvent)
unfolding wait_ready
context_wait delays now es = wait_ready context_state_cb delays (suc (length es)) now es
