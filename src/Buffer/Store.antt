-- ===== src/Buffer/Store.antt =====
-- `_rbuf_write` of src/core/buffer.c: which bytes a write stores, and where.
use hiemal.Base.{
  ℕ, ◌+◌, ◌-◌, ◌≤◌, ◌<◌, ◌≡◌, ltb, if◌then◌else◌, length, arith, Bytes, byte_at, memcpy, slice,
  length-memcpy, length-slice, byte_at-slice, memcpy-slice, ◌∙◌, sym, ◌++◌, list_ext, length-append,
  get_or-append_left, get_or-append_right,
}
use hiemal.Buffer.{Buffer, wrapped, rbuf_linear_bytes_write, set_rbuf_state}
use hiemal.Buffer.Io.{rbuf_store}
use hiemal.Buffer.Valid.{
  IsRing, used, used-le, write_ptr-eq, linear_write-eq, ring_byte, contents, length-contents,
  byte_at-contents,
}

-- The position of the `i`th byte, and the byte found there after the copying. `c` bytes are in use,
-- and the free run from `w` ends at the reader or at the end of the area.
module _ (m src : Bytes) (len r c w n i : ℕ) (area : length m ≡ len) (r_in : r < len)
    (c_le : c ≤ len) (w_at : w ≡ wrapped len (r + c)) (room : n ≤ len - c) (enough : n ≤ length src)
    (i_in : i < c + n) where
  one_piece :
      n ≤ len - w
      → byte_at (memcpy m w (slice src 0 n)) (wrapped len (r + i))
        ≡ (if ltb i c then byte_at m (wrapped len (r + i)) else byte_at src (i - c))
  one_piece fits =
      rw (memcpy-slice m w src 0 n (wrapped len (r + i)) (omega arith) (ground arith))
        (ground arith)

  two_pieces :
      len - w < n
      → byte_at
          (memcpy (memcpy m w (slice src 0 (len - w))) 0 (slice src (len - w) (n - (len - w))))
          (wrapped len (r + i))
        ≡ (if ltb i c then byte_at m (wrapped len (r + i)) else byte_at src (i - c))
  two_pieces splits =
      rw
        (
          memcpy-slice (memcpy m w (slice src 0 (len - w))) 0 src (len - w) (n - (len - w))
              (wrapped len (r + i)) (omega arith)
              (ground (arith, length-memcpy m w (slice src 0 (len - w)))),
          memcpy-slice m w src 0 (len - w) (wrapped len (r + i)) (omega arith) (ground arith),
        )
        (ground arith)

byte_at-contents_append :
    (b : Buffer) (src : Bytes) (n i : ℕ)
    → i < used b + n
    → n ≤ length src
    → byte_at (contents b ++ slice src 0 n) i
      ≡ (if ltb i (used b) then ring_byte b i else byte_at src (i - used b))
byte_at-contents_append b src n i lt enough = ground (
  arith,
  length-contents b,
  byte_at-contents b i,
  byte_at-slice src 0 n (i - used b),
  get_or-append_left (contents b) (slice src 0 n) i 0,
  get_or-append_right (contents b) (slice src 0 n) i 0,
)

module _ {b : Buffer} (v : IsRing b) (src : Bytes) (n : ℕ) (room : n ≤ b.buf_len_bytes - used b)
    (enough : n ≤ length src) where
  store-area : length (rbuf_store b src n).mem ≡ b.buf_len_bytes
  unfolding rbuf_store
  store-area =
      let k = rbuf_linear_bytes_write b in
      ground (
        arith,
        v.area,
        length-memcpy b.mem b.write_ptr (slice src 0 n),
        length-memcpy b.mem b.write_ptr (slice src 0 k),
        length-memcpy (memcpy b.mem b.write_ptr (slice src 0 k)) 0 (slice src k (n - k)),
      )

  store-byte :
      (i : ℕ)
      → i < used b + n
      → byte_at (rbuf_store b src n).mem (wrapped b.buf_len_bytes (b.read_ptr + i))
        ≡ (if ltb i (used b) then ring_byte b i else byte_at src (i - used b))
  unfolding rbuf_store
  store-byte i lt =
      let open_area = b.buf_len_bytes - b.write_ptr in
      ground (
        arith,
        linear_write-eq v,
        used-le v,
        one_piece b.mem src b.buf_len_bytes b.read_ptr (used b) b.write_ptr n i v.area v.read_in
            (used-le v) (write_ptr-eq v) room enough lt,
        two_pieces b.mem src b.buf_len_bytes b.read_ptr (used b) b.write_ptr n i v.area v.read_in
            (used-le v) (write_ptr-eq v) room enough lt,
      )

  module _ (moved : n ≡ 0 → used b ≡ b.buf_len_bytes) where
    pub stored-IsRing : IsRing (set_rbuf_state (rbuf_store b src n) b'w')
    unfolding rbuf_store set_rbuf_state
    stored-IsRing = ground (arith, store-area, linear_write-eq v, used-le v, write_ptr-eq v)

    pub stored-used : used (set_rbuf_state (rbuf_store b src n) b'w') ≡ used b + n
    unfolding rbuf_store set_rbuf_state
    stored-used = ground (arith, linear_write-eq v, used-le v, write_ptr-eq v)

    pub stored-mem : (set_rbuf_state (rbuf_store b src n) b'w').mem ≡ (rbuf_store b src n).mem
    unfolding set_rbuf_state rbuf_store
    stored-mem = ground arith

    pub stored-read_ptr : (set_rbuf_state (rbuf_store b src n) b'w').read_ptr ≡ b.read_ptr
    unfolding set_rbuf_state rbuf_store
    stored-read_ptr = ground (arith, v.read_in)

    pub stored-len : (set_rbuf_state (rbuf_store b src n) b'w').buf_len_bytes ≡ b.buf_len_bytes
    unfolding set_rbuf_state rbuf_store
    stored-len = ground arith

    pub stored-ring_byte :
        (i : ℕ)
        → i < used b + n
        → ring_byte (set_rbuf_state (rbuf_store b src n) b'w') i
          ≡ (if ltb i (used b) then ring_byte b i else byte_at src (i - used b))
    stored-ring_byte i lt = rw (stored-mem, stored-read_ptr, stored-len) (store-byte i lt)

    -- The bytes held afterwards are those held before and the first `n` of the source.
    pub stored-contents :
        contents (set_rbuf_state (rbuf_store b src n) b'w') ≡ contents b ++ slice src 0 n
    stored-contents =
        list_ext 0 _ _
          (omega (
            arith,
            length-contents (set_rbuf_state (rbuf_store b src n) b'w'),
            length-contents b,
            length-append (contents b) (slice src 0 n),
            length-slice src 0 n,
            stored-used,
          ))
          λ i lt.
            let lt' : i < used b + n =
              omega
                (arith, length-contents (set_rbuf_state (rbuf_store b src n) b'w'), stored-used) in
            byte_at-contents (set_rbuf_state (rbuf_store b src n) b'w') i
              (omega (arith, stored-used))
            ∙ stored-ring_byte i lt'
            ∙ sym (byte_at-contents_append b src n i lt' enough)
