-- ===== src/Buffer/Linear/Transfer.antt =====
-- `buffer_write` and `buffer_read` of src/core/buffer.c on a linear buffer.
use hiemal.Base.{
  ℕ, ◌+◌, ◌-◌, ◌≤◌, ◌<◌, ◌≡◌, ◌≢◌, refl, ap, sym, ◌∙◌, Option, none, some, List, [], ◌∷◌, ◌++◌,
  arith, Bytes, true, false, ◌==◌, ==_iff, length, take, drop, min, Bool-cases, inl, inr, slice,
  byte_at, list_ext, length-slice, byte_at-slice, append-nil, get_or-drop, length-drop, length-take,
  get_or-take, memcpy,
}
use hiemal.Event.{Effect}
use hiemal.Event.Wake.{buffer_wake-wakes}
use hiemal.Buffer.{Buffer, linear, set_buffer_state}
use hiemal.Buffer.Io.{
  Outcome, outcome, unlock, deliver, finish, wake, signalled, lbuf_write, lbuf_read, has_room,
  buffer_read, buffer_write,
}
use hiemal.Buffer.Finish.{held, deliver-nil}
use hiemal.Buffer.Linear.{
  IsLinear, Rewound, pending, n_write-eq, n_read-eq, stored, set_state-IsLinear, set_state-pending,
  stored-IsLinear, stored-pending, length-pending, byte_at-pending,
}

pub record Wrote (b : Buffer) (src : Bytes) (n : ℕ) (o : Outcome) : Type 0 where
  pub count : o.code ≡ n
  pub valid : IsLinear o.buf
  pub rewound : Rewound o.buf
  pub bytes : pending o.buf ≡ pending b ++ slice src 0 n
  pub released : o.buf.locked ≡ false

pub record Took (b : Buffer) (dest : Option Bytes) (n : ℕ) (o : Outcome) : Type 0 where
  pub count : o.code ≡ n
  pub valid : IsLinear o.buf
  pub rewound : Rewound o.buf
  pub given : o.memory ≡ deliver dest 0 (take n (pending b))
  pub bytes : pending o.buf ≡ drop n (pending b)
  pub released : o.buf.locked ≡ false

held-IsLinear : {b : Buffer} → IsLinear b → IsLinear (held b)
held-IsLinear v = ground arith

unlock-IsLinear : {b : Buffer} → IsLinear b × Rewound b → IsLinear (unlock b) × Rewound (unlock b)
unlock-IsLinear v = ground arith

wake-some : (b : Buffer) (n : ℕ) → (fx : List Effect) × (wake b n ≡ some fx)
unfolding wake
wake-some b n =
    elim b.event_list
      as (λ l. (fx : List Effect) × (wake (record b { event_list = l }) n ≡ some fx)) [
        | [] ↦ ([], refl)
        | e ∷ l ↦ (_, buffer_wake-wakes (e ∷ l) _)
      ]

-- The outcome of `finish` on any buffer, up to what it sends
finish-some :
    (b : Buffer) (mode n : ℕ) (dest : Option Bytes)
    → (fx : List Effect) × (finish b mode n dest
        ≡ some (outcome n (unlock (set_buffer_state b mode)) dest fx))
unfolding finish
finish-some b mode n dest = let (fx, e) = wake-some (set_buffer_state b mode) n in (fx, rw e refl)

lbuf_write-eq :
    {b : Buffer} (src : Bytes) (n : ℕ)
    → IsLinear b
    → b.locked ≡ false
    → n ≢ 0
    → lbuf_write b src n
      ≡ finish
          (record b {
            mem = memcpy b.mem b.write_ptr (slice src 0 (min n (b.buf_len_bytes - b.write_ptr)));
            write_ptr = b.write_ptr + min n (b.buf_len_bytes - b.write_ptr);
            locked = true;
          })
          b'-'
          (min n (b.buf_len_bytes - b.write_ptr))
          none
unfolding lbuf_write
lbuf_write-eq {b} src n v free nz = ground (arith, v.is_linear, n_write-eq (held-IsLinear v))

lbuf_read-eq :
    {b : Buffer} (dest : Option Bytes) (n : ℕ)
    → IsLinear b
    → b.locked ≡ false
    → n ≢ 0
    → has_room dest (min n (b.write_ptr - b.read_ptr)) ≡ true
    → lbuf_read b dest n
      ≡ finish
          (record b { read_ptr = b.read_ptr + min n (b.write_ptr - b.read_ptr); locked = true })
          b'-'
          (min n (b.write_ptr - b.read_ptr))
          (deliver dest 0 (slice b.mem b.read_ptr (min n (b.write_ptr - b.read_ptr))))
unfolding lbuf_read
lbuf_read-eq {b} dest n v free nz fits = ground (arith, v.is_linear, n_read-eq (held-IsLinear v))

-- The signals at the end of `buffer_write` change neither the buffer nor the code.
signal-Wrote :
    {b : Buffer} {src : Bytes} {n : ℕ} {o : Outcome} → Wrote b src n o → Wrote b src n (signalled o)
unfolding signalled
signal-Wrote w = ground arith

lbuf_write-zero :
    {b : Buffer} (src : Bytes) (n : ℕ)
    → b.type ≡ linear
    → n ≡ 0
    → lbuf_write b src n ≡ some (outcome 0 b none [])
unfolding lbuf_write
lbuf_write-zero src n t z = ground arith

lbuf_write-Wrote :
    {b : Buffer} (src : Bytes) (n : ℕ)
    → IsLinear b
    → Rewound b
    → b.locked ≡ false
    → n ≤ length src
    → (o : Outcome) × (lbuf_write b src n ≡ some o)
      × Wrote b src (min n (b.buf_len_bytes - b.write_ptr)) o
lbuf_write-Wrote {b} src n v rw_b free enough = elim (Bool-cases (n == 0)) [
  | inl z ↦
      let z' : n ≡ 0 = (==_iff n 0).0 z in
      let e : min n (b.buf_len_bytes - b.write_ptr) ≡ 0 = omega arith in
      (
        outcome 0 b none [],
        lbuf_write-zero src n v.is_linear z',
        rw e (record {
          count = refl;
          valid = v;
          rewound = rw_b;
          bytes = sym (append-nil (pending b));
          released = free;
        }),
      )
  | inr nz ↦
      let k = min n (b.buf_len_bytes - b.write_ptr) in
      let s = stored v src k (omega arith) (omega arith) in
      let sv = stored-IsLinear v src k (omega arith) (omega arith) in
      let (fx, e) = finish-some s b'-' k none in
      let w = unlock-IsLinear (set_state-IsLinear sv b'-') in
      (
        outcome k (unlock (set_buffer_state s b'-')) none fx,
        lbuf_write-eq src n v free (ground arith) ∙ e,
        record {
          count = refl;
          valid = w.0;
          rewound = w.1;
          bytes = set_state-pending sv b'-' ∙ stored-pending v src k (omega arith) (omega arith);
          released = refl;
        },
      )
]

-- `buffer_write` of `n` bytes to an unlocked linear buffer, from a source of at least `n` bytes, always
-- returns. It takes what fits between the write pointer and the end of the area, returns that count,
-- and the bytes to be read are those before followed by the prefix taken; the buffer stays valid with
-- the mutex released, and is back at its start if nothing is left to read.
pub buffer_write-linear :
    {b : Buffer} (src : Bytes) (n : ℕ)
    → IsLinear b
    → Rewound b
    → b.locked ≡ false
    → n ≤ length src
    → (o : Outcome) × (buffer_write b src n ≡ some o)
      × Wrote b src (min n (b.buf_len_bytes - b.write_ptr)) o
unfolding buffer_write
buffer_write-linear {b} src n v rw_b free enough =
    let (o, e, w) = lbuf_write-Wrote src n v rw_b free enough in
    (signalled o, ground (arith, v.is_linear), signal-Wrote w)

module _ {b : Buffer} (v : IsLinear b) (k : ℕ) (have : k ≤ b.write_ptr - b.read_ptr) where
  slice-pending : slice b.mem b.read_ptr k ≡ take k (pending b)
  slice-pending =
      list_ext 0 (slice b.mem b.read_ptr k) (take k (pending b))
        (omega (
          arith,
          v.area,
          length-slice b.mem b.read_ptr k,
          length-take k (pending b),
          length-pending b,
        ))
        λ i lt.
          let lt' : i < k = omega (arith, v.area, length-slice b.mem b.read_ptr k) in
          byte_at-slice b.mem b.read_ptr k i lt'
          ∙ sym (get_or-take k (pending b) i 0 lt' ∙ byte_at-pending b i (omega arith))

  abbrev skipped : Buffer
  skipped = record b { read_ptr = b.read_ptr + k; locked = true }

  skipped-IsLinear : IsLinear skipped
  skipped-IsLinear = ground (arith, v.is_linear)

  skipped-pending : pending skipped ≡ drop k (pending b)
  skipped-pending =
      list_ext 0 (pending skipped) (drop k (pending b))
        (omega (arith, length-pending skipped, length-drop k (pending b), length-pending b))
        λ i lt.
          let lt' : i < b.write_ptr - (b.read_ptr + k) = omega (arith, length-pending skipped) in
          byte_at-pending skipped i lt'
          ∙ ap (byte_at b.mem)
              (let e : b.read_ptr + k + i ≡ b.read_ptr + (k + i) = omega arith in e)
          ∙ sym (get_or-drop k (pending b) i 0 ∙ byte_at-pending b (k + i) (omega arith))

lbuf_read-zero :
    {b : Buffer} (dest : Option Bytes) (n : ℕ)
    → b.type ≡ linear
    → n ≡ 0
    → lbuf_read b dest n ≡ some (outcome 0 b dest [])
unfolding lbuf_read
lbuf_read-zero dest n t z = ground arith

-- `buffer_read` of `n` bytes from an unlocked linear buffer, into memory with room for the bytes taken if the
-- caller gives any, always returns. It returns the number of
-- bytes taken, `n` or as many as are pending; those are the oldest, at the start of the caller's memory
-- if it gave any, and the rest stay pending; the buffer stays valid with the mutex released, and is
-- back at its start if nothing is left to read.
pub buffer_read-linear :
    {b : Buffer} (dest : Option Bytes) (n : ℕ)
    → IsLinear b
    → Rewound b
    → b.locked ≡ false
    → has_room dest (min n (b.write_ptr - b.read_ptr)) ≡ true
    → (o : Outcome) × (buffer_read b dest n ≡ some o)
      × Took b dest (min n (b.write_ptr - b.read_ptr)) o
unfolding buffer_read
buffer_read-linear {b} dest n v rw_b free fits = elim (Bool-cases (n == 0)) [
  | inl z ↦
      let z' : n ≡ 0 = (==_iff n 0).0 z in
      let e : min n (b.write_ptr - b.read_ptr) ≡ 0 = omega arith in
      let e' = lbuf_read-zero {b = b} dest n v.is_linear z' in
      (
        outcome 0 b dest [],
        ground (arith, v.is_linear),
        rw e (record {
          count = refl;
          valid = v;
          rewound = rw_b;
          given = sym (deliver-nil dest);
          bytes = refl;
          released = free;
        }),
      )
  | inr nz ↦
      let k = min n (b.write_ptr - b.read_ptr) in
      let s = skipped v k (omega arith) in
      let sv = skipped-IsLinear v k (omega arith) in
      let out = deliver dest 0 (slice b.mem b.read_ptr k) in
      let (fx, e) = finish-some s b'-' k out in
      let w = unlock-IsLinear (set_state-IsLinear sv b'-') in
      let e' = lbuf_read-eq dest n v free (ground arith) fits ∙ e in
      (
        outcome k (unlock (set_buffer_state s b'-')) out fx,
        ground (arith, v.is_linear),
        record {
          count = refl;
          valid = w.0;
          rewound = w.1;
          given = ap (deliver dest 0) (slice-pending v k (omega arith));
          bytes = set_state-pending sv b'-' ∙ skipped-pending v k (omega arith);
          released = refl;
        },
      )
]
