-- ===== src/Buffer/Linear.antt =====
-- The linear buffers of src/core/buffer.c: bytes are appended up to the end of the area, and its start
-- is used again only once everything has been read.
pub mod Transfer
use hiemal.Base.{
  ℕ, ◌+◌, ◌-◌, ◌^◌, ◌≤◌, ◌<◌, ◌≡◌, ◌≢◌, refl, ap, sym, ◌∙◌, Option, none, some, List, [], ◌∷◌, ◌++◌,
  arith, Bytes, true, false, ◌==◌, ==_iff, length, take, drop, min, Bool-cases, inl, inr,
  if◌then◌else◌, memcpy, slice, byte_at, tabulate, byte_at-tabulate, length-tabulate, length-memcpy,
  memcpy-slice, length-slice, byte_at-slice, list_ext, ltb, length-append, get_or-append_left,
  get_or-append_right, get_or-drop, length-drop, length-take, get_or-take,
}
use native.Mathlib.Decide.{ℕ_discrete}
use hiemal.Event.{Effect, buffer_wake}
use hiemal.Event.Wake.{buffer_wake-wakes, wakes}
use hiemal.Buffer.{
  Buffer, linear, normal, empty, full, set_lbuf_state, set_buffer_state, buffer_reset,
  buffer_n_write_bytes, buffer_n_read_bytes, lbuf_n_write_bytes, lbuf_n_read_bytes,
}
use hiemal.Buffer.Io.{
  Outcome, outcome, unlock, clamped, deliver, finish, wake, signalled, lbuf_write, lbuf_read,
  buffer_read, buffer_write,
}
use hiemal.Buffer.Finish.{held}

pub record IsLinear (b : Buffer) : Type 0 where
  pub is_linear : b.type ≡ linear
  pub area : length b.mem ≡ b.buf_len_bytes
  pub small : b.buf_len_bytes < 2 ^ 31
  pub ordered : b.read_ptr ≤ b.write_ptr
  pub write_in : b.write_ptr ≤ b.buf_len_bytes

-- The bytes written and not yet read
abbrev pub pending : Buffer → Bytes
pending b = tabulate (b.write_ptr - b.read_ptr) (λ i. byte_at b.mem (b.read_ptr + i)) 0

-- Everything read means a buffer that starts again at 0.
abbrev pub Rewound : Buffer → Type 0
Rewound b = b.read_ptr ≡ b.write_ptr → (b.write_ptr ≡ 0) × (b.state ≡ empty)

pub length-pending : (b : Buffer) → length (pending b) ≡ b.write_ptr - b.read_ptr
length-pending b =
    length-tabulate (b.write_ptr - b.read_ptr) (λ i. byte_at b.mem (b.read_ptr + i)) 0

pending-nil : (b : Buffer) → b.write_ptr ≤ b.read_ptr → pending b ≡ []
unfolding tabulate
pending-nil b h = let e : b.write_ptr - b.read_ptr ≡ 0 = omega arith in rw e refl

pub byte_at-pending :
    (b : Buffer) (i : ℕ)
    → i < b.write_ptr - b.read_ptr
    → byte_at (pending b) i ≡ byte_at b.mem (b.read_ptr + i)
byte_at-pending b i lt =
    byte_at-tabulate (b.write_ptr - b.read_ptr) (λ i. byte_at b.mem (b.read_ptr + i)) 0 i lt
    ∙ ap (λ k. byte_at b.mem (b.read_ptr + k)) (let e : 0 + i ≡ i = omega arith in e)

module _ {b : Buffer} (v : IsLinear b) where
  pub n_write-eq : buffer_n_write_bytes b ≡ b.buf_len_bytes - b.write_ptr
  unfolding buffer_n_write_bytes lbuf_n_write_bytes
  n_write-eq = ground (arith, v.is_linear)

  pub n_read-eq : buffer_n_read_bytes b ≡ b.write_ptr - b.read_ptr
  unfolding buffer_n_read_bytes lbuf_n_read_bytes
  n_read-eq = ground (arith, v.is_linear)

  pub set_state-IsLinear :
      (mode : ℕ) → IsLinear (set_buffer_state b mode) × Rewound (set_buffer_state b mode)
  unfolding set_buffer_state set_lbuf_state buffer_reset
  set_state-IsLinear mode = ground (arith, v.is_linear)

  set_state-met :
      (mode : ℕ)
      → b.read_ptr ≡ b.write_ptr
      → (set_buffer_state b mode).write_ptr ≤ (set_buffer_state b mode).read_ptr
  unfolding set_buffer_state set_lbuf_state buffer_reset
  set_state-met mode e = ground (arith, v.is_linear)

  set_state-apart :
      (mode : ℕ)
      → b.read_ptr ≢ b.write_ptr
      → ((set_buffer_state b mode).mem ≡ b.mem)
        × ((set_buffer_state b mode).read_ptr ≡ b.read_ptr)
        × ((set_buffer_state b mode).write_ptr ≡ b.write_ptr)
  unfolding set_buffer_state set_lbuf_state buffer_reset
  set_state-apart mode ne = ground (arith, v.is_linear)

  pub set_state-pending : (mode : ℕ) → pending (set_buffer_state b mode) ≡ pending b
  set_state-pending mode = elim (ℕ_discrete b.read_ptr b.write_ptr) [
    | yes e ↦
        pending-nil (set_buffer_state b mode) (set_state-met mode e)
        ∙ sym (pending-nil b (omega arith))
    | no ne ↦ let s = set_state-apart mode ne in rw (s.0, s.1, s.2) refl
  ]

-- Storing `k` bytes that fit, before the state is set
module _ {b : Buffer} (v : IsLinear b) (src : Bytes) (k : ℕ) (enough : k ≤ length src)
    (room : k ≤ b.buf_len_bytes - b.write_ptr) where
  abbrev pub stored : Buffer
  stored = record b {
    mem = memcpy b.mem b.write_ptr (slice src 0 k);
    write_ptr = b.write_ptr + k;
    locked = true;
  }

  pub stored-IsLinear : IsLinear stored
  stored-IsLinear = ground (arith, v.is_linear, length-memcpy b.mem b.write_ptr (slice src 0 k))

  stored-byte :
      (i : ℕ)
      → i < b.write_ptr - b.read_ptr + k
      → byte_at stored.mem (b.read_ptr + i) ≡ byte_at (pending b ++ slice src 0 k) i
  stored-byte i lt =
      memcpy-slice b.mem b.write_ptr src 0 k (b.read_ptr + i) (omega arith) (omega (arith, v.area))
      ∙ ground (
        arith,
        length-pending b,
        byte_at-pending b i,
        byte_at-slice src 0 k (i - (b.write_ptr - b.read_ptr)),
        get_or-append_left (pending b) (slice src 0 k) i 0,
        get_or-append_right (pending b) (slice src 0 k) i 0,
      )

  pub stored-pending : pending stored ≡ pending b ++ slice src 0 k
  stored-pending =
      list_ext 0 (pending stored) (pending b ++ slice src 0 k)
        (omega (
          arith,
          length-pending stored,
          length-pending b,
          length-append (pending b) (slice src 0 k),
          length-slice src 0 k,
        ))
        λ i lt.
          let lt' : i < b.write_ptr - b.read_ptr + k = omega (arith, length-pending stored) in
          byte_at-pending stored i (omega arith) ∙ stored-byte i lt'
