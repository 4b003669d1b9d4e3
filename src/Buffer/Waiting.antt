-- ===== src/Buffer/Waiting.antt =====
-- A thread that waits in `hm_event_poll` (src/core/event_unix.c) while others call `buffer_write` (src/core/buffer.c).
use hiemal.Base.{
  ℕ, ◌+◌, ◌≤◌, ◌<◌, ◌≡◌, ◌≢◌, refl, ap, ap₂, ◌∙◌, Bool, true, false, Option, some, List, [], ◌∷◌,
  ◌++◌, map, length, min, arith, leb, ◌==◌, if◌then◌else◌, ◌>>=◌, is_some, Bytes, inl, inr,
  Bool-cases,
}
use hiemal.Base.Int.{ℤ, pos, negsuc, eqb_ℤ}
use hiemal.Event.{Event, ObjType, IoEvent, Effect, fd_write, pipe_write}
use hiemal.Event.Wake.{wakes}
use hiemal.Event.Poll.{poll_buffer, event_poll}
use hiemal.Buffer.{Buffer}
use hiemal.Buffer.Descriptors.{signal_fds, fds}
use hiemal.Buffer.Io.{Outcome, buffer_write}
use hiemal.Buffer.Valid.{IsRing, used, used-le}
use hiemal.Buffer.Finish.{announced}
use hiemal.Buffer.Write.{sent, buffer_write-appends}

-- The records written to a pipe, in order
unfoldable pub pipe_of : ℤ → List Effect → List IoEvent
pipe_of p [] = []
pipe_of p (fd_write n k ∷ fx) = pipe_of p fx
pipe_of p (pipe_write q r ∷ fx) = let rest = pipe_of p fx in if eqb_ℤ q p then r ∷ rest else rest

-- Writes, one after the other
unfoldable pub write_all : List Bytes → Buffer → Option (Buffer × List Effect)
write_all [] b = some (b, [])
write_all (xs ∷ srcs) b = buffer_write b xs (length xs) >>= λ o.
    write_all srcs o.buf >>= λ r. some (r.0, o.effects ++ r.1)

-- The condition that at least `k` bytes can be read
abbrev pub readable : (k : ℕ) → IoEvent → Unit {0} → ℤ × Unit {0}
readable k r w = (if leb k r.n_bytes_readable then pos 0 else negsuc 0, tt)

pipe_of-append : (p : ℤ) (fx gx : List Effect) → pipe_of p (fx ++ gx) ≡ pipe_of p fx ++ pipe_of p gx
unfolding pipe_of
pipe_of-append p [] gx = refl
pipe_of-append p (fd_write n k ∷ fx) gx = pipe_of-append p fx gx
pipe_of-append p (pipe_write q r ∷ fx) gx = ground (arith, pipe_of-append p fx gx)

pipe_of-fds : (p : ℤ) (l : List ℤ) (n : ℕ) → pipe_of p (map (λ fd. fd_write fd n) l) ≡ []
unfolding pipe_of
pipe_of-fds p [] n = refl
pipe_of-fds p (x ∷ l) n = pipe_of-fds p l n

eqb_ℤ_self : (a : ℤ) → eqb_ℤ a a ≡ true
eqb_ℤ_self (pos n) = ground arith
eqb_ℤ_self (negsuc n) = ground arith

-- A write of some bytes puts one record into the pipe of the only event that waits.
pipe_of-sent :
    (b : Buffer) (e : Event) (n : ℕ) (o : Outcome)
    → b.event_list ≡ e ∷ []
    → n ≢ 0
    → pipe_of e.pipe_write (sent b n o) ≡ announced o.buf o.code ∷ []
unfolding pipe_of signal_fds
pipe_of-sent b e n o one nz =
    let p = e.pipe_write in
    let quiet : pipe_of p (if b.fd_hold then [] else signal_fds b.fd_set o.code) ≡ [] =
      elim (Bool-cases b.fd_hold) [
        | inl h ↦ rw h refl
        | inr h ↦ rw h (pipe_of-fds p (fds b.fd_set.head) o.code)
      ] in
    let woken : (if n == 0 then [] else wakes (announced o.buf o.code) b.event_list)
        ≡ pipe_write p (announced o.buf o.code) ∷ [] =
      ground (arith, one) in
    pipe_of-append p (if n == 0 then [] else wakes (announced o.buf o.code) b.event_list)
      (if b.fd_hold then [] else signal_fds b.fd_set o.code)
    ∙ rw (woken, quiet) (rw (eqb_ℤ_self p) refl)

-- The bytes that can be read after each write, into a ring of `cap` bytes that holds `u`
levels : (cap u : ℕ) → List Bytes → List ℕ
levels cap u [] = []
levels cap u (xs ∷ srcs) = let u' = min cap (u + length xs) in u' ∷ levels cap u' srcs

reaches : (k : ℕ) → List ℕ → Bool
reaches k [] = false
reaches k (u ∷ us) = let rest = reaches k us in if leb k u then true else rest

unfoldable pub amount : List Bytes → ℕ
amount [] = 0
amount (xs ∷ srcs) = length xs + amount srcs

-- Sources of at least one byte each
abbrev pub AreSome : List Bytes → Type 0
AreSome [] = Unit {0}
AreSome (xs ∷ srcs) = (0 < length xs) × AreSome srcs

reaches-levels :
    (k cap u : ℕ) (xs : Bytes) (srcs : List Bytes)
    → u ≤ cap
    → reaches k (levels cap u (xs ∷ srcs)) ≡ leb k (min cap (u + amount (xs ∷ srcs)))
unfolding reaches levels amount
reaches-levels k cap u xs [] le = ground arith
reaches-levels k cap u xs (ys ∷ srcs) le =
    ground (arith, reaches-levels k cap (min cap (u + length xs)) ys srcs (omega arith))

poll_buffer-reaches :
    (k : ℕ) (pipe : List IoEvent)
    → is_some (poll_buffer (readable k) pipe tt)
      ≡ reaches k (map (λ (r : IoEvent). r.n_bytes_readable) pipe)
unfolding poll_buffer reaches
poll_buffer-reaches k [] = refl
poll_buffer-reaches k (r ∷ pipe) = ground (arith, poll_buffer-reaches k pipe)

write_all-levels :
    (e : Event) (srcs : List Bytes) (b : Buffer)
    → IsRing b
    → b.locked ≡ false
    → b.event_list ≡ e ∷ []
    → AreSome srcs
    → (r : Buffer × List Effect) × (write_all srcs b ≡ some r)
      × (map (λ (i : IoEvent). i.n_bytes_readable) (pipe_of e.pipe_write r.1)
          ≡ levels b.buf_len_bytes (used b) srcs)
unfolding write_all levels pipe_of
write_all-levels e [] b v free one somes = ((b, []), refl, refl)
write_all-levels e (xs ∷ srcs) b v free one (lt, somes) =
    let (o, eq, wrote, fx) = buffer_write-appends xs (length xs) v free (omega arith) in
    let (r, eq', levels') =
      write_all-levels e srcs o.buf wrote.valid wrote.released (wrote.kept.event_list ∙ one)
        somes in
    let p = e.pipe_write in
    let f = λ (i : IoEvent). i.n_bytes_readable in
    let records : pipe_of p (o.effects ++ r.1) ≡ announced o.buf o.code ∷ pipe_of p r.1 =
      pipe_of-append p o.effects r.1
      ∙ ap (λ l. l ++ pipe_of p r.1)
          (ap (pipe_of p) fx ∙ pipe_of-sent b e (length xs) o one (omega arith)) in
    let filled : used o.buf ≡ min b.buf_len_bytes (used b + length xs) =
      omega (arith, wrote.filled, used-le v) in
    (
      (r.0, o.effects ++ r.1),
      rw (eq, eq') refl,
      ap (map f) records
          ∙ ap (λ l. used o.buf ∷ l) levels'
          ∙ ap₂ (λ cap u. u ∷ levels cap u srcs) wrote.kept.len filled,
    )

-- A thread that polls the only event of an unlocked valid ring, with the condition that at least `k` bytes can be
-- read, returns from `hm_event_poll` after some writes of at least one byte each if they fill the ring to `k`
-- bytes, and waits on if they do not.
pub event_poll-wakes :
    (k : ℕ) (e : Event) (xs : Bytes) (srcs : List Bytes) {b : Buffer}
    → IsRing b
    → b.locked ≡ false
    → b.event_list ≡ e ∷ []
    → e.obj_type ≡ ObjType.buffer
    → AreSome (xs ∷ srcs)
    → (r : Buffer × List Effect) × (write_all (xs ∷ srcs) b ≡ some r)
      × (is_some (event_poll e (readable k) (pipe_of e.pipe_write r.1) tt)
          ≡ leb k (min b.buf_len_bytes (used b + amount (xs ∷ srcs))))
unfolding event_poll
event_poll-wakes k e xs srcs {b = b} v free one kind somes =
    let (r, eq, l) = write_all-levels e (xs ∷ srcs) b v free one somes in
    let pipe = pipe_of e.pipe_write r.1 in
    (
      r,
      eq,
      ground (arith, kind, poll_buffer-reaches k pipe)
          ∙ ap (reaches k) l
          ∙ reaches-levels k b.buf_len_bytes (used b) xs srcs (used-le v),
    )
