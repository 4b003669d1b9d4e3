-- ===== src/Event/Poll.antt =====
-- The waiting of src/core/event_unix.c. The kernel is what it lets a call see: the records in a pipe, in order, and
-- how often `poll` returns; the condition of an event is a function of the client's, over a state of its own. `none`
-- is a call that still waits.
use hiemal.Base.{
  ℕ, zero, suc, ◌%◌, Bool, Option, none, some, List, [], ◌∷◌, ◌==◌, if◌then◌else◌, ◌>>=◌,
}
use hiemal.Base.Int.{ℤ, pos, negsuc, eqb_ℤ}
use hiemal.Event.{Event, ObjType, IoEvent}

abbrev pub is_zero : ℤ → Bool
is_zero c = eqb_ℤ c (pos 0)

-- What `hm_poll_buffer` leaves: the client's state, the records still in the pipe, and those read, which are freed
pub record Woken (W : Type 0) : Type 0 where
  pub state : W
  pub left : List IoEvent
  pub freed : List IoEvent

module _ {W : Type 0} where
  -- `hm_poll_buffer`, over the records in the pipe
  unfoldable pub poll_buffer : (cond : IoEvent → W → ℤ × W) → List IoEvent → W → Option (Woken W)
  poll_buffer cond [] w = none
  poll_buffer cond (r ∷ pipe) w =
      let (c, w') = cond r w in
      let rest = poll_buffer cond pipe w' in
      if is_zero c
      then some (record { state = w'; left = pipe; freed = r ∷ [] })
      else rest >>= λ o. some (record o { freed = r ∷ o.freed })

  -- `hm_event_poll`
  unfoldable pub event_poll :
      Event → (cond : IoEvent → W → ℤ × W) → List IoEvent → W → Option (ℤ × Woken W)
  unfolding poll_buffer
  event_poll e cond pipe w = elim e.obj_type [
    | ObjType.buffer ↦ poll_buffer cond pipe w >>= λ o. some (pos 0, o)
    | _ ↦ some (negsuc 0, record { state = w; left = pipe; freed = [] })
  ]

  -- `hm_poll_fd`, over the number of times that `poll` returns
  unfoldable pub poll_fd : (returns : ℕ) → (cond : W → ℤ × W) → W → Option W
  poll_fd zero cond w = none
  poll_fd (suc k) cond w =
      let (c, w') = cond w in let rest = poll_fd k cond w' in if is_zero c then some w' else rest

-- The first loop of `hm_poll_fd_list`: the descriptors, or `none` for -1
unfoldable pub collect_fds : List (ObjType × ℕ) → Option (List ℕ)
collect_fds [] = some []
collect_fds ((t, n) ∷ l) = elim t [
  | ObjType.fd ↦ collect_fds l >>= λ fds. some (n ∷ fds)
  | _ ↦ none
]

-- Whether the loop behind `poll` goes back to it
pub data Scanned (W : Type 0) : Type 0 where
  poll_again leave : W → Scanned W

module _ {W : Type 0} (cond : (i : ℕ) → W → ℤ × W) where
  -- That loop from the index `i` on. What it compares with POLLIN, which is 1, is the number of the descriptor.
  unfoldable pub scan_fds : List ℕ → (i : ℕ) → W → Scanned W
  scan_fds [] i w = leave w
  scan_fds (n ∷ fds) i w =
      let rest = scan_fds fds (suc i) w in
      if n % 2 == 1
      then (let (c, w') = cond i w in if is_zero c then leave w' else poll_again w')
      else rest

  unfoldable pub poll_fds : (returns : ℕ) → List ℕ → W → Option W
  unfolding scan_fds
  poll_fds zero fds w = none
  poll_fds (suc k) fds w = elim (scan_fds fds 0 w) [
    | leave w ↦ some w
    | poll_again w ↦ poll_fds k fds w
  ]

  -- `hm_poll_fd_list`, over the kinds and descriptors of the events
  unfoldable pub poll_fd_list : (returns : ℕ) → List (ObjType × ℕ) → W → Option (ℤ × W)
  unfolding collect_fds poll_fds
  poll_fd_list returns l w = elim (collect_fds l) [
    | none ↦ some (negsuc 0, w)
    | some fds ↦ poll_fds returns fds w >>= λ w. some (pos 0, w)
  ]
