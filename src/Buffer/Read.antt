-- ===== src/Buffer/Read.antt =====
-- `buffer_read` of src/core/buffer.c on a ring.
use hiemal.Base.{
  ℕ, ◌+◌, ◌≤◌, ◌≡◌, ◌≢◌, refl, sym, ◌∙◌, Option, none, some, List, [], arith, Bytes, false, ◌==◌,
  ==_iff, length, take, drop, min, Bool-cases, inl, inr, if◌then◌else◌,
}
use hiemal.Event.{Effect}
use hiemal.Event.Wake.{wakes}
use hiemal.Buffer.{Buffer, ring, set_rbuf_state}
use hiemal.Buffer.Io.{
  Outcome, outcome, unlock, deliver, finish, rbuf_fetch, rbuf_advance, rbuf_read, buffer_read,
}
use hiemal.Buffer.Valid.{IsRing, used, contents, buffer_n_read_bytes-eq}
use hiemal.Buffer.Fetch.{fetch-prefix, advanced-IsRing, advanced-used, advanced-contents}
use hiemal.Buffer.Finish.{
  announced, SameSettings, finish-ring, held, held-IsRing, unlock-IsRing, deliver-nil,
}

-- Caller's memory that is null or has room for `n` bytes
abbrev pub HasRoom : ℕ → Option Bytes → Type 0
HasRoom n none = Unit
HasRoom n (some out) = n ≤ length out

-- `o` is the result of taking the oldest `n` bytes out of `b`.
pub record Took (b : Buffer) (dest : Option Bytes) (n : ℕ) (o : Outcome) : Type 0 where
  pub count : o.code ≡ n
  pub valid : IsRing o.buf
  pub given : o.memory ≡ deliver dest 0 (take n (contents b))
  pub bytes : contents o.buf ≡ drop n (contents b)
  pub emptied : used o.buf + n ≡ used b
  pub released : o.buf.locked ≡ false
  pub kept : SameSettings b o.buf

rbuf_read-zero :
    {b : Buffer} (dest : Option Bytes) (n : ℕ)
    → b.type ≡ ring
    → n ≡ 0
    → rbuf_read b dest n ≡ some (outcome 0 b dest [])
unfolding rbuf_read
rbuf_read-zero dest n t z = ground arith

rbuf_read-eq :
    {b : Buffer} (dest : Option Bytes) (n : ℕ)
    → IsRing b
    → b.locked ≡ false
    → n ≢ 0
    → rbuf_read b dest n
      ≡ finish
          (rbuf_advance (held b) (min n (used b)))
          b'r'
          (min n (used b))
          (rbuf_fetch (held b) dest (min n (used b)))
unfolding rbuf_read
rbuf_read-eq {b} dest n v free nz =
    ground (arith, v.is_ring, buffer_n_read_bytes-eq (held-IsRing v))

advance-SameSettings :
    (b : Buffer) (k mode : ℕ) → SameSettings b (set_rbuf_state (rbuf_advance b k) mode)
unfolding rbuf_advance set_rbuf_state
advance-SameSettings b k mode = ground arith

fetch-deliver :
    {b : Buffer} (v : IsRing b) (n : ℕ) (dest : Option Bytes)
    → n ≤ used b
    → HasRoom n dest
    → rbuf_fetch b dest n ≡ deliver dest 0 (take n (contents b))
unfolding rbuf_fetch
fetch-deliver v n none h room = ground arith
fetch-deliver v n (some out) h room = fetch-prefix v n h out room

HasRoom-le : {m n : ℕ} (dest : Option Bytes) → m ≤ n → HasRoom n dest → HasRoom m dest
HasRoom-le none h room = tt
HasRoom-le (some out) h room = omega arith

module _ {b : Buffer} (dest : Option Bytes) (n : ℕ) (v : IsRing b) (room : HasRoom n dest)
    (free : b.locked ≡ false) where
  abbrev given : ℕ
  given = min n (used b)

  abbrev after : Buffer
  after = set_rbuf_state (rbuf_advance (held b) given) b'r'

  abbrev memory : Option Bytes
  memory = rbuf_fetch (held b) dest given

  abbrev told : List Effect
  told = wakes (announced after given) after.event_list

  after-IsRing : n ≢ 0 → IsRing after
  after-IsRing nz = advanced-IsRing (held-IsRing v) given (omega arith) (λ e. omega arith)

  advance-type : (rbuf_advance (held b) given).type ≡ ring
  unfolding rbuf_advance
  advance-type = ground (arith, v.is_ring)

  after-SameSettings : SameSettings b (unlock after)
  after-SameSettings = let s = advance-SameSettings (held b) given b'r' in ground arith

  after-Took : n ≢ 0 → Took b dest given (outcome given (unlock after) memory told)
  after-Took nz = record {
    count = refl;
    valid = unlock-IsRing (after-IsRing nz);
    given =
        fetch-deliver (held-IsRing v) given dest (omega arith) (HasRoom-le dest (omega arith) room);
    bytes = advanced-contents (held-IsRing v) given (omega arith) (λ e. omega arith);
    emptied = advanced-used (held-IsRing v) given (omega arith) (λ e. omega arith);
    released = refl;
    kept = after-SameSettings;
  }

  run-some : n ≢ 0 → rbuf_read b dest n ≡ some (outcome given (unlock after) memory told)
  run-some nz =
      rbuf_read-eq dest n v free nz
      ∙ finish-ring (rbuf_advance (held b) given) b'r' given memory advance-type (after-IsRing nz)

  none-Took : n ≡ 0 → Took b dest given (outcome 0 b dest [])
  none-Took z =
      let e : given ≡ 0 = omega arith in
      rw e (record {
        count = refl;
        valid = v;
        given = sym (deliver-nil dest);
        bytes = refl;
        emptied = omega arith;
        released = free;
        kept = record {
          len = refl;
          fd_set = refl;
          fd_hold = refl;
          event_list = refl;
          ext_buf = refl;
        };
      })

-- `buffer_read` of `n` bytes on an unlocked ring, into null or into memory with room for `n`, always
-- returns. It returns the number of bytes taken, `n` or as many as are held; those are the oldest, in
-- order, at the start of the caller's memory, the rest stay in a valid ring with the mutex released and
-- the settings kept; unless `n` is 0 it sends each event the counts that result.
pub buffer_read-takes :
    {b : Buffer} (dest : Option Bytes) (n : ℕ)
    → IsRing b
    → b.locked ≡ false
    → HasRoom n dest
    → (o : Outcome) × (buffer_read b dest n ≡ some o)
      × Took b dest (min n (used b)) o
      × (o.effects ≡ (if n == 0 then [] else wakes (announced o.buf o.code) b.event_list))
unfolding buffer_read
buffer_read-takes {b} dest n v free room = elim (Bool-cases (n == 0)) [
  | inl z ↦ (
    outcome 0 b dest [],
    ground (arith, v.is_ring, rbuf_read-zero {b = b} dest n v.is_ring ((==_iff n 0).0 z)),
    none-Took dest n v room free ((==_iff n 0).0 z),
    rw z refl,
  )
  | inr nz ↦
      let nz' : n ≢ 0 = ground arith in
      (
        outcome (given dest n v room free) (unlock (after dest n v room free))
            (memory dest n v room free) (told dest n v room free),
        ground (arith, v.is_ring, run-some dest n v room free nz'),
        after-Took dest n v room free nz',
        rw (nz, (after-SameSettings dest n v room free).event_list) refl,
      )
]
