-- ===== src/Pulse/Ready.antt =====
-- The waits of src/core/pulse.c for a state end just where the state is reached, if it is not left again.
use hiemal.Base.{
  ℕ, zero, suc, ◌<◌, ◌≤◌, ◌≡◌, refl, ap, sym, ◌∙◌, Bool, true, false, not, ◌&&◌, ◌||◌, Option, none,
  some, List, [], ◌∷◌, length, arith, if◌then◌else◌, ◌>>=◌, is_some, Bool-cases, inl, inr,
}
use hiemal.Pulse.State.{
  PaState, pending, ready, failed, terminated, LoopEvent, enters, signalled, is_ready,
  stream_state_cb, context_state_cb, handle, mainloop_wait, wait_ready, hm_pulse_bytes_readable,
  hm_pulse_bytes_writable, context_wait,
}

-- Whether the object enters the ready state
abbrev pub gets_ready : List LoopEvent → Bool
gets_ready [] = false
gets_ready (enters s ∷ es) = is_ready s || gets_ready es
gets_ready (signalled ∷ es) = gets_ready es

-- Whether the object stays ready once it is
abbrev pub keeps_ready : PaState → List LoopEvent → Bool
keeps_ready now [] = true
keeps_ready now (signalled ∷ es) = keeps_ready now es
keeps_ready now (enters s ∷ es) = (not (is_ready now) || is_ready s) && keeps_ready s es

handle_kept :
    (d : ℕ) (now : PaState) (es : List LoopEvent)
    → keeps_ready now es ≡ true
    → let r = handle d now es in
      (keeps_ready r.0 r.1 ≡ true)
      × ((is_ready r.0 || gets_ready r.1) ≡ (is_ready now || gets_ready es))
      × (length r.1 ≤ length es)
unfolding handle
handle_kept zero now es h = (h, refl, omega arith)
handle_kept (suc d) now [] h = (h, refl, omega arith)
handle_kept (suc d) now (signalled ∷ es) h =
    let (k, e, l) = handle_kept d now es h in (k, e, omega arith)
handle_kept (suc d) now (enters s ∷ es) h =
    let (k, e, l) = handle_kept d s es (ground arith) in (k, e ∙ ground arith, omega arith)

module _ (state_cb : PaState → Bool)
    (told : (s : PaState) → state_cb s ≡ false → is_ready s ≡ false) (delays : ℕ → ℕ) where
  -- What a number of rounds is enough for
  AreEnough : ℕ → Type 0
  AreEnough k =
      (now : PaState) (es : List LoopEvent)
      → keeps_ready now es ≡ true
      → length es < k
      → is_some (wait_ready state_cb delays k now es) ≡ (is_ready now || gets_ready es)

  woken :
      (k d : ℕ) (now : PaState) (es : List LoopEvent)
      → AreEnough k
      → keeps_ready now es ≡ true
      → length es < k
      → let r = handle d now es in
        is_some (wait_ready state_cb delays k r.0 r.1) ≡ (is_ready now || gets_ready es)
  unfolding AreEnough
  woken k d now es enough h lt =
      let (kept, e, l) = handle_kept d now es h in
      enough (handle d now es).0 (handle d now es).1 kept (omega arith) ∙ e

  wait-gets :
      (k d : ℕ) (now : PaState) (es : List LoopEvent)
      → AreEnough k
      → is_ready now ≡ false
      → keeps_ready now es ≡ true
      → length es ≤ k
      → is_some (mainloop_wait state_cb d now es >>= λ w. wait_ready state_cb delays k w.0 w.1)
        ≡ gets_ready es
  unfolding mainloop_wait
  wait-gets k d now [] enough e h le = refl
  wait-gets k d now (signalled ∷ es) enough e h le =
      woken k d now es enough h (omega arith) ∙ ap (λ b. b || gets_ready es) e
  wait-gets k d now (enters s ∷ es) enough e h le = elim (Bool-cases (state_cb s)) [
    | inl t ↦ rw t (woken k d s es enough (ground arith) (omega arith))
    | inr f ↦ rw (f, told s f) (wait-gets k d s es enough (told s f) (ground arith) (omega arith))
  ]

  AreEnough-all : (k : ℕ) → AreEnough k
  unfolding AreEnough wait_ready
  AreEnough-all zero now es h lt = elim lt [ ]
  AreEnough-all (suc k) now es h lt = elim (Bool-cases (is_ready now)) [
    | inl e ↦ rw e refl
    | inr e ↦ rw e (wait-gets k (delays k) now es (AreEnough-all k) e h (omega arith))
  ]

  wait_ready-gets :
      (now : PaState) (es : List LoopEvent)
      → keeps_ready now es ≡ true
      → is_some (wait_ready state_cb delays (suc (length es)) now es)
        ≡ (is_ready now || gets_ready es)
  unfolding AreEnough
  wait_ready-gets now es h = AreEnough-all (suc (length es)) now es h (omega arith)

stream_told : (s : PaState) → stream_state_cb s ≡ false → is_ready s ≡ false
unfolding stream_state_cb
stream_told ready e = e
stream_told pending e = refl
stream_told failed e = refl
stream_told terminated e = refl

context_told : (s : PaState) → context_state_cb s ≡ false → is_ready s ≡ false
unfolding context_state_cb
context_told ready e = e
context_told pending e = refl
context_told failed e = refl
context_told terminated e = refl

then-some :
    {A B : Type 0} (o : Option A) (b : B) (t : Bool)
    → is_some o ≡ t
    → (o >>= λ _. some b) ≡ (if t then some b else none)
then-some none b t e = rw (sym e) refl
then-some (some a) b t e = rw (sym e) refl

-- However long the main loop goes on after each signal: if the stream stays ready once it is,
-- `hm_pulse_bytes_readable` and `hm_pulse_bytes_writable` return just where it is ready or becomes so. They then return
-- the size, whatever else signals, and otherwise wait on, on a stream that failed as on any other.
pub bytes_readable-ready :
    (delays : ℕ → ℕ) (now : PaState) (es : List LoopEvent) (size : ℕ)
    → keeps_ready now es ≡ true
    → (hm_pulse_bytes_readable delays now es size
        ≡ (if is_ready now || gets_ready es then some size else none))
      × (hm_pulse_bytes_writable delays now es size
          ≡ (if is_ready now || gets_ready es then some size else none))
unfolding hm_pulse_bytes_readable hm_pulse_bytes_writable
bytes_readable-ready delays now es size h =
    let e =
      then-some (wait_ready stream_state_cb delays (suc (length es)) now es) size
        (is_ready now || gets_ready es)
        (wait_ready-gets stream_state_cb stream_told delays now es h) in
    (e, e)

-- `hm_pulse_connection_init` goes on just where the context is ready or becomes so, if it then stays ready.
pub context_wait-ready :
    (delays : ℕ → ℕ) (now : PaState) (es : List LoopEvent)
    → keeps_ready now es ≡ true
    → is_some (context_wait delays now es) ≡ (is_ready now || gets_ready es)
unfolding context_wait
context_wait-ready delays now es h = wait_ready-gets context_state_cb context_told delays now es h

-- Where the main loop goes on after the signal, a stream that fails right after it was ready is waited for on and on.
bytes_readable-missed :
    (d size : ℕ)
    → hm_pulse_bytes_readable (λ k. suc d) pending (enters ready ∷ enters failed ∷ []) size ≡ none
unfolding hm_pulse_bytes_readable wait_ready mainloop_wait handle stream_state_cb
bytes_readable-missed zero size = refl
bytes_readable-missed (suc d) size = refl
