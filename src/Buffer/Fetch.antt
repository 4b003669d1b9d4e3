-- ===== src/Buffer/Fetch.antt =====
-- `_rbuf_read` of src/core/buffer.c: which bytes a read delivers, and what it leaves.
use hiemal.Base.{
  ℕ, ◌+◌, ◌-◌, ◌≤◌, ◌<◌, ◌≡◌, sym, ◌∙◌, ap, some, ltb, if◌then◌else◌, length, arith, Bytes, byte_at,
  memcpy, slice, take, drop, list_ext, length-memcpy, length-take, length-drop, get_or-take,
  get_or-drop, byte_at-memcpy_above, byte_at-memcpy_inside, memcpy-slice,
}
use hiemal.Buffer.{Buffer, wrapped, rbuf_linear_bytes_read, set_rbuf_state}
use hiemal.Buffer.Io.{rbuf_fetch, rbuf_advance}
use hiemal.Buffer.Valid.{
  IsRing, used, used-le, write_ptr-eq, linear_read-eq, ring_byte, contents, length-contents,
  byte_at-contents,
}

-- The byte found in the caller's memory `out` after `n` bytes of the area `m` went there, in one piece
-- or in two.
module _ (m out : Bytes) (len r n i : ℕ) (area : length m ≡ len) (r_in : r ≤ len) (n_le : n ≤ len)
    (room : n ≤ length out) where
  pub one_piece :
      n ≤ len - r
      → byte_at (memcpy out 0 (slice m r n)) i
        ≡ (if ltb i n then byte_at m (wrapped len (r + i)) else byte_at out i)
  one_piece fits = rw (memcpy-slice out 0 m r n i (omega arith) (omega arith)) (ground arith)

  pub two_pieces :
      len - r < n
      → byte_at
          (memcpy (memcpy out 0 (slice m r (len - r))) (len - r) (slice m 0 (n - (len - r))))
          i
        ≡ (if ltb i n then byte_at m (wrapped len (r + i)) else byte_at out i)
  two_pieces splits =
      rw
        (
          memcpy-slice (memcpy out 0 (slice m r (len - r))) (len - r) m 0 (n - (len - r)) i
              (omega arith) (omega (arith, length-memcpy out 0 (slice m r (len - r)))),
          memcpy-slice out 0 m r (len - r) i (omega arith) (omega arith),
        )
        (ground arith)

module _ {b : Buffer} (v : IsRing b) (n : ℕ) (held : n ≤ used b) where
  abbrev fetched : Bytes → Bytes
  fetched out =
      let k = rbuf_linear_bytes_read b in
      if ltb k n
      then memcpy (memcpy out 0 (slice b.mem b.read_ptr k)) k (slice b.mem 0 (n - k))
      else memcpy out 0 (slice b.mem b.read_ptr n)

  fetch-fetched : (out : Bytes) → rbuf_fetch b (some out) n ≡ some (fetched out)
  unfolding rbuf_fetch
  fetch-fetched out = ground arith

  length-fetched : (out : Bytes) → length (fetched out) ≡ length out
  length-fetched out =
      let k = rbuf_linear_bytes_read b in
      ground (
        arith,
        length-memcpy out 0 (slice b.mem b.read_ptr n),
        length-memcpy out 0 (slice b.mem b.read_ptr k),
        length-memcpy (memcpy out 0 (slice b.mem b.read_ptr k)) k (slice b.mem 0 (n - k)),
      )

  byte_at-fetched :
      (out : Bytes) (i : ℕ)
      → n ≤ length out
      → byte_at (fetched out) i ≡ (if ltb i n then ring_byte b i else byte_at out i)
  byte_at-fetched out i room = ground (
    arith,
    linear_read-eq v,
    used-le v,
    one_piece b.mem out b.buf_len_bytes b.read_ptr n i v.area (omega (arith, v.read_in))
        (omega (arith, used-le v)) room,
    two_pieces b.mem out b.buf_len_bytes b.read_ptr n i v.area (omega (arith, v.read_in))
        (omega (arith, used-le v)) room,
  )

  byte_at-prefix :
      (out : Bytes) (i : ℕ)
      → n ≤ length out
      → byte_at (memcpy out 0 (take n (contents b))) i
        ≡ (if ltb i n then ring_byte b i else byte_at out i)
  byte_at-prefix out i room = ground (
    arith,
    length-take n (contents b),
    length-contents b,
    byte_at-contents b i,
    get_or-take n (contents b) i 0,
    byte_at-memcpy_above out 0 (take n (contents b)) i,
    byte_at-memcpy_inside out 0 (take n (contents b)) i i,
  )

  -- The caller's memory begins with the oldest `n` bytes, and is left alone after those.
  pub fetch-prefix :
      (out : Bytes)
      → n ≤ length out
      → rbuf_fetch b (some out) n ≡ some (memcpy out 0 (take n (contents b)))
  fetch-prefix out room =
      fetch-fetched out
      ∙ ap some (
          list_ext 0 (fetched out) (memcpy out 0 (take n (contents b)))
            (length-fetched out ∙ sym (length-memcpy out 0 (take n (contents b))))
            λ i lt. byte_at-fetched out i room ∙ sym (byte_at-prefix out i room))

  module _ (moved : n ≡ 0 → used b ≡ 0) where
    pub advanced-IsRing : IsRing (set_rbuf_state (rbuf_advance b n) b'r')
    unfolding rbuf_advance set_rbuf_state
    advanced-IsRing = ground (arith, linear_read-eq v, used-le v, write_ptr-eq v)

    pub advanced-used : used (set_rbuf_state (rbuf_advance b n) b'r') + n ≡ used b
    unfolding rbuf_advance set_rbuf_state
    advanced-used = ground (arith, linear_read-eq v, used-le v, write_ptr-eq v)

    advanced-read_ptr :
        (set_rbuf_state (rbuf_advance b n) b'r').read_ptr ≡ wrapped b.buf_len_bytes (b.read_ptr + n)
    unfolding rbuf_advance set_rbuf_state
    advanced-read_ptr = ground (arith, linear_read-eq v, used-le v)

    advanced-area :
        ((set_rbuf_state (rbuf_advance b n) b'r').mem ≡ b.mem)
        × ((set_rbuf_state (rbuf_advance b n) b'r').buf_len_bytes ≡ b.buf_len_bytes)
    unfolding rbuf_advance set_rbuf_state
    advanced-area = ground arith

    advanced-ring_byte :
        (i : ℕ)
        → n + i < used b
        → ring_byte (set_rbuf_state (rbuf_advance b n) b'r') i ≡ ring_byte b (n + i)
    advanced-ring_byte i lt =
        rw (advanced-read_ptr, advanced-area.0, advanced-area.1)
          (ap (byte_at b.mem) (ground (arith, used-le v)))

    -- What is left are the bytes behind the first `n`.
    pub advanced-contents : contents (set_rbuf_state (rbuf_advance b n) b'r') ≡ drop n (contents b)
    advanced-contents =
        let b' = set_rbuf_state (rbuf_advance b n) b'r' in
        list_ext 0 (contents b') (drop n (contents b))
          (omega (
            arith,
            length-contents b',
            length-drop n (contents b),
            length-contents b,
            advanced-used,
          ))
          λ i lt.
            let lt' : i < used b' = omega (arith, length-contents b') in
            byte_at-contents b' i lt'
            ∙ advanced-ring_byte i (omega (arith, advanced-used))
            ∙ sym (byte_at-contents b (n + i) (omega (arith, advanced-used)))
            ∙ sym (get_or-drop n (contents b) i 0)
