-- ===== src/Buffer/Write.antt =====
-- `buffer_write` of src/core/buffer.c on a ring.
use hiemal.Base.{
  ℕ, ◌+◌, ◌-◌, ◌≤◌, ◌≡◌, ◌≢◌, refl, none, some, List, [], ◌++◌, arith, Bytes, false, ◌==◌, length,
  slice, min, Bool-cases, inl, inr, if◌then◌else◌, append-nil, ◌∙◌, sym, ==_iff,
}
use hiemal.Event.{Effect}
use hiemal.Event.Wake.{wakes}
use hiemal.Buffer.{Buffer, ring, set_rbuf_state}
use hiemal.Buffer.Descriptors.{signal_fds}
use hiemal.Buffer.Io.{
  Outcome, outcome, unlock, finish, rbuf_store, rbuf_write, signalled, buffer_write,
}
use hiemal.Buffer.Valid.{IsRing, used, contents, buffer_n_write_bytes-eq, used-le}
use hiemal.Buffer.Store.{stored-IsRing, stored-used, stored-contents}
use hiemal.Buffer.Finish.{announced, SameSettings, finish-ring, held, held-IsRing, unlock-IsRing}

-- `o` is the result of storing the first `n` bytes of `src` in `b`.
pub record Wrote (b : Buffer) (src : Bytes) (n : ℕ) (o : Outcome) : Type 0 where
  pub count : o.code ≡ n
  pub valid : IsRing o.buf
  pub bytes : contents o.buf ≡ contents b ++ slice src 0 n
  pub filled : used o.buf ≡ used b + n
  pub released : o.buf.locked ≡ false
  pub kept : SameSettings b o.buf

-- A ring write of `n` bytes stores as many as fit.
rbuf_write-eq :
    {b : Buffer} (src : Bytes) (n : ℕ)
    → IsRing b
    → b.locked ≡ false
    → n ≢ 0
    → rbuf_write b src n
      ≡ finish
          (rbuf_store (held b) src (min n (b.buf_len_bytes - used b)))
          b'w'
          (min n (b.buf_len_bytes - used b))
          none
unfolding rbuf_write
rbuf_write-eq {b} src n v free nz =
    ground (arith, v.is_ring, buffer_n_write_bytes-eq (held-IsRing v))

store-SameSettings :
    (b : Buffer) (src : Bytes) (k mode : ℕ)
    → SameSettings b (set_rbuf_state (rbuf_store b src k) mode)
unfolding rbuf_store set_rbuf_state
store-SameSettings b src k mode = ground arith

module _ {b : Buffer} (src : Bytes) (n : ℕ) (v : IsRing b) (enough : n ≤ length src)
    (free : b.locked ≡ false) where
  abbrev taken : ℕ
  taken = min n (b.buf_len_bytes - used b)

  abbrev after : Buffer
  after = set_rbuf_state (rbuf_store (held b) src taken) b'w'

  abbrev told : List Effect
  told = wakes (announced after taken) after.event_list

  after-IsRing : n ≢ 0 → IsRing after
  after-IsRing nz =
      stored-IsRing (held-IsRing v) src taken (omega arith) (omega arith)
        (λ e. omega (arith, used-le v))

  store-type : (rbuf_store (held b) src taken).type ≡ ring
  unfolding rbuf_store
  store-type = ground (arith, v.is_ring)

  after-SameSettings : SameSettings b (unlock after)
  after-SameSettings = let s = store-SameSettings (held b) src taken b'w' in ground arith

  after-Wrote : n ≢ 0 → Wrote b src taken (outcome taken (unlock after) none told)
  after-Wrote nz = record {
    count = refl;
    valid = unlock-IsRing (after-IsRing nz);
    bytes =
        stored-contents (held-IsRing v) src taken (omega arith) (omega arith)
          (λ e. omega (arith, used-le v));
    filled =
        stored-used (held-IsRing v) src taken (omega arith) (omega arith)
          (λ e. omega (arith, used-le v));
    released = refl;
    kept = after-SameSettings;
  }

  run-some : n ≢ 0 → rbuf_write b src n ≡ some (outcome taken (unlock after) none told)
  run-some nz =
      rbuf_write-eq src n v free nz
      ∙ finish-ring (rbuf_store (held b) src taken) b'w' taken none store-type (after-IsRing nz)

  none-Wrote : n ≡ 0 → Wrote b src taken (outcome 0 b none [])
  none-Wrote z =
      let e : taken ≡ 0 = omega arith in
      rw e (record {
        count = refl;
        valid = v;
        bytes = sym (append-nil (contents b));
        filled = omega arith;
        released = free;
        kept = record {
          len = refl;
          fd_set = refl;
          fd_hold = refl;
          event_list = refl;
          ext_buf = refl;
        };
      })

-- What a write sends: the event record to each waiting event, then the count to each descriptor.
abbrev pub sent : Buffer → ℕ → Outcome → List Effect
sent b n o =
    (if n == 0 then [] else wakes (announced o.buf o.code) b.event_list)
    ++ (if b.fd_hold then [] else signal_fds b.fd_set o.code)

signalled-Wrote :
    {b : Buffer} {src : Bytes} {n : ℕ} {o : Outcome} → Wrote b src n o → Wrote b src n (signalled o)
unfolding signalled
signalled-Wrote w = ground arith

signalled-effects :
    (o : Outcome)
    → (signalled o).effects
      ≡ o.effects ++ (if o.buf.fd_hold then [] else signal_fds o.buf.fd_set o.code)
unfolding signalled
signalled-effects o = ground (arith, append-nil o.effects)

signalled-fields : (o : Outcome) → ((signalled o).buf ≡ o.buf) × ((signalled o).code ≡ o.code)
unfolding signalled
signalled-fields o = ground arith

rbuf_write-zero :
    {b : Buffer} (src : Bytes) (n : ℕ)
    → b.type ≡ ring
    → n ≡ 0
    → rbuf_write b src n ≡ some (outcome 0 b none [])
unfolding rbuf_write
rbuf_write-zero src n t z = ground arith

-- The outcome of `_rbuf_write`, before the descriptors are signalled
rbuf_write-Wrote :
    {b : Buffer} (src : Bytes) (n : ℕ)
    → IsRing b
    → b.locked ≡ false
    → n ≤ length src
    → (o : Outcome) × (rbuf_write b src n ≡ some o)
      × Wrote b src (min n (b.buf_len_bytes - used b)) o
      × (o.effects ≡ (if n == 0 then [] else wakes (announced o.buf o.code) b.event_list))
rbuf_write-Wrote {b} src n v free enough = elim (Bool-cases (n == 0)) [
  | inl z ↦ (
    outcome 0 b none [],
    rbuf_write-zero src n v.is_ring ((==_iff n 0).0 z),
    none-Wrote src n v enough free ((==_iff n 0).0 z),
    rw z refl,
  )
  | inr nz ↦
      let nz' : n ≢ 0 = ground arith in
      (
        outcome (taken src n v enough free) (unlock (after src n v enough free)) none
            (told src n v enough free),
        run-some src n v enough free nz',
        after-Wrote src n v enough free nz',
        rw (nz, (after-SameSettings src n v enough free).event_list),
      )
]

-- `buffer_write` on an unlocked ring, from a source of at least `n` bytes, always returns. It takes
-- as many of the `n` bytes as fit, returns their number, leaves the bytes held before followed by the
-- first so many of the source, in a valid ring with the mutex released and the settings kept; unless
-- `n` is 0 it sends each event the counts that result, and then, unless signals are held, it sends
-- the number to each descriptor.
pub buffer_write-appends :
    {b : Buffer} (src : Bytes) (n : ℕ)
    → IsRing b
    → b.locked ≡ false
    → n ≤ length src
    → (o : Outcome) × (buffer_write b src n ≡ some o)
      × Wrote b src (min n (b.buf_len_bytes - used b)) o
      × (o.effects ≡ sent b n o)
unfolding buffer_write
buffer_write-appends {b} src n v free enough =
    let (o, e, w, fx) = rbuf_write-Wrote src n v free enough in
    (
      signalled o,
      ground (arith, v.is_ring),
      signalled-Wrote w,
      ground (arith, w.kept, signalled-effects o, signalled-fields o),
    )
