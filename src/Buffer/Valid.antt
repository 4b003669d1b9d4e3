-- ===== src/Buffer/Valid.antt =====
-- The invariant of a ring buffer, and what the free and used counts of src/core/buffer.c are under it.
use hiemal.Base.{
  ℕ, suc, ◌+◌, ◌-◌, ◌%◌, ◌^◌, ◌≤◌, ◌<◌, ◌≡◌, ◌≢◌, ltb, if◌then◌else◌, length, arith, min, ap, ◌∙◌,
  length-tabulate, byte_at-tabulate, Bytes, byte_at, tabulate,
}
use hiemal.Base.Int.{rem, ◌+ℤ◌, sub_ℕ, ltb_ℤ, pos, pos_part}
use native.Mathlib.Nat.{mod-eq_of_lt}
use hiemal.Buffer.{
  Buffer, BufferState, ring, empty, normal, full, rbuf_n_write_bytes, rbuf_n_read_bytes, wrapped,
  rbuf_linear_bytes_write, rbuf_linear_bytes_read, buffer_n_write_bytes, buffer_n_read_bytes,
}

-- A ring over its whole area, shorter than 2 GiB so that counts fit an `int`, with both pointers inside
-- it; the state tells an empty ring from a full one where the pointers meet.
pub record IsRing (b : Buffer) : Type 0 where
  pub is_ring : b.type ≡ ring
  pub area : length b.mem ≡ b.buf_len_bytes
  pub nonempty : 0 < b.buf_len_bytes
  pub small : b.buf_len_bytes < 2 ^ 31
  pub read_in : b.read_ptr < b.buf_len_bytes
  pub write_in : b.write_ptr < b.buf_len_bytes
  pub apart : b.state ≡ normal → b.read_ptr ≢ b.write_ptr
  pub met_empty : b.state ≡ empty → b.read_ptr ≡ b.write_ptr
  pub met_full : b.state ≡ full → b.read_ptr ≡ b.write_ptr

-- The bytes held, by the positions of the pointers
abbrev pub used_at : BufferState → (len r w : ℕ) → ℕ
used_at empty len r w = 0
used_at full len r w = len
used_at normal len r w = if ltb r w then w - r else w + len - r

abbrev pub used : Buffer → ℕ
used b = used_at b.state b.buf_len_bytes b.read_ptr b.write_ptr

abbrev ring_diff : (len r w : ℕ) → ℕ
unfolding rem ◌+ℤ◌
ring_diff len r w =
    let diff = rem (sub_ℕ r w) len in
    let diff = if ltb_ℤ diff (pos 0) then diff +ℤ pos len else diff in pos_part diff % 2 ^ 32

ring_diff_lem :
    (len r w : ℕ)
    → r < len
    → w < len
    → len < 2 ^ 31
    → r ≢ w
    → ring_diff len r w ≡ (if ltb r w then len - (w - r) else r - w)
unfolding ring_diff
ring_diff_lem len r w hr hw small ne =
    ground (arith, mod-eq_of_lt {n = r - w} {m = len}, mod-eq_of_lt {n = suc (w - r - 1)} {m = len})

module _ {b : Buffer} (v : IsRing b) where
  pub rbuf_n_write_bytes-eq : rbuf_n_write_bytes b ≡ b.buf_len_bytes - used b
  unfolding rbuf_n_write_bytes
  rbuf_n_write_bytes-eq =
      ground
        (arith, ring_diff_lem b.buf_len_bytes b.read_ptr b.write_ptr v.read_in v.write_in v.small)

  pub used-le : used b ≤ b.buf_len_bytes
  used-le = ground arith

  pub used-bytes : rbuf_n_read_bytes b ≡ used b
  unfolding rbuf_n_read_bytes
  used-bytes = ground (arith, rbuf_n_write_bytes-eq, used-le)

  pub buffer_n_write_bytes-eq : buffer_n_write_bytes b ≡ b.buf_len_bytes - used b
  unfolding buffer_n_write_bytes
  buffer_n_write_bytes-eq = ground (arith, rbuf_n_write_bytes-eq)

  pub buffer_n_read_bytes-eq : buffer_n_read_bytes b ≡ used b
  unfolding buffer_n_read_bytes
  buffer_n_read_bytes-eq = ground (arith, used-bytes)

  pub write_ptr-eq : b.write_ptr ≡ wrapped b.buf_len_bytes (b.read_ptr + used b)
  write_ptr-eq = ground arith

  -- A write reaches the end of the area or the reader, whichever comes first.
  pub linear_write-eq :
      rbuf_linear_bytes_write b ≡ min (b.buf_len_bytes - used b) (b.buf_len_bytes - b.write_ptr)
  unfolding rbuf_linear_bytes_write
  linear_write-eq = ground arith

  pub linear_read-eq : rbuf_linear_bytes_read b ≡ min (used b) (b.buf_len_bytes - b.read_ptr)
  unfolding rbuf_linear_bytes_read
  linear_read-eq = ground arith

-- The bytes that readers have yet to see, oldest first
abbrev pub ring_byte : Buffer → ℕ → ℕ
ring_byte b i = byte_at b.mem (wrapped b.buf_len_bytes (b.read_ptr + i))

abbrev pub contents : Buffer → Bytes
contents b = tabulate (used b) (ring_byte b) 0

pub length-contents : (b : Buffer) → length (contents b) ≡ used b
length-contents b = length-tabulate (used b) (ring_byte b) 0

pub byte_at-contents : (b : Buffer) (i : ℕ) → i < used b → byte_at (contents b) i ≡ ring_byte b i
byte_at-contents b i lt =
    byte_at-tabulate (used b) (ring_byte b) 0 i lt
    ∙ ap (ring_byte b) (let e : 0 + i ≡ i = omega arith in e)
