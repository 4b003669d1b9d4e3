-- ===== src/Buffer/View.antt =====
-- `buffer_view` of src/core/buffer.c, which copies bytes out and leaves them in the buffer.
use hiemal.Base.{
  ℕ, ◌+◌, ◌-◌, ◌≤◌, ◌<◌, ◌≡◌, ◌≢◌, refl, ap, sym, ◌∙◌, none, some, arith, Bytes, false, ltb, length,
  take, drop, min, memcpy, slice, byte_at, list_ext, length-memcpy, sub_u32, if◌then◌else◌,
  length-take, length-drop, get_or-take, get_or-drop, byte_at-memcpy_above, byte_at-memcpy_inside,
  [],
}
use hiemal.Buffer.{Buffer, linear, rbuf_linear_bytes_read, buffer_n_read_bytes}
use hiemal.Buffer.Io.{
  Outcome, outcome, clamped, buffer_view, buffer_view_raw, buffer_read, buffer_write, lbuf_read,
  lbuf_write,
}
use hiemal.Buffer.Valid.{
  IsRing, used, used-le, contents, ring_byte, buffer_n_read_bytes-eq, linear_read-eq,
  length-contents, byte_at-contents,
}
use hiemal.Buffer.Fetch.{one_piece, two_pieces}
use hiemal.Buffer.Finish.{held, held-IsRing}

-- On a linear buffer a view returns 0 whatever it copied, and never releases the mutex: from then on
-- no read, write or view of any bytes returns.
pub buffer_view-locks :
    (b : Buffer) (out dest src : Bytes) (offset n m : ℕ)
    → b.type ≡ linear
    → b.locked ≡ false
    → m ≢ 0
    → (o : Outcome) × (buffer_view b out offset n ≡ some o)
      × (o.code ≡ 0)
      × (buffer_read o.buf (some dest) m ≡ none)
      × (buffer_write o.buf src m ≡ none)
      × (buffer_view o.buf dest offset m ≡ none)
unfolding buffer_view buffer_read buffer_write lbuf_read lbuf_write
buffer_view-locks b out dest src offset n m t free nz = (
  outcome 0 (held b)
      (some (buffer_view_raw (held b) out offset (clamped (buffer_n_read_bytes (held b)) n))) [],
  ground arith,
  refl,
  ground arith,
  ground arith,
  refl,
)

module _ {b : Buffer} (v : IsRing b) (dest : Bytes) (offset n : ℕ)
    (reach : offset ≤ min (used b) (b.buf_len_bytes - b.read_ptr))
    (held_enough : offset + n ≤ used b) (room : n ≤ length dest) where
  abbrev viewed : Bytes
  viewed =
      let k = sub_u32 (rbuf_linear_bytes_read b) offset in
      if ltb k n
      then memcpy (memcpy dest 0 (slice b.mem (b.read_ptr + offset) k)) k (slice b.mem 0 (n - k))
      else memcpy dest 0 (slice b.mem (b.read_ptr + offset) n)

  run_length :
      sub_u32 (rbuf_linear_bytes_read b) offset
      ≡ min (used b) (b.buf_len_bytes - b.read_ptr) - offset
  run_length = rw (linear_read-eq v) (omega (arith, v.small))

  length-viewed : length viewed ≡ length dest
  length-viewed =
      let k = sub_u32 (rbuf_linear_bytes_read b) offset in
      let r = b.read_ptr + offset in
      ground (
        arith,
        length-memcpy dest 0 (slice b.mem r n),
        length-memcpy dest 0 (slice b.mem r k),
        length-memcpy (memcpy dest 0 (slice b.mem r k)) k (slice b.mem 0 (n - k)),
      )

  byte_at-viewed :
      (i : ℕ) → byte_at viewed i ≡ (if ltb i n then ring_byte b (offset + i) else byte_at dest i)
  byte_at-viewed i =
      let r = b.read_ptr + offset in
      rw run_length (
        ground (
          arith,
          used-le v,
          one_piece b.mem dest b.buf_len_bytes r n i v.area (omega (arith, v.read_in))
              (omega (arith, used-le v)) room,
          two_pieces b.mem dest b.buf_len_bytes r n i v.area (omega (arith, v.read_in))
              (omega (arith, used-le v)) room,
        ))

  byte_at-window :
      (i : ℕ)
      → byte_at (memcpy dest 0 (take n (drop offset (contents b)))) i
        ≡ (if ltb i n then ring_byte b (offset + i) else byte_at dest i)
  byte_at-window i = ground (
    arith,
    length-take n (drop offset (contents b)),
    length-drop offset (contents b),
    length-contents b,
    byte_at-contents b (offset + i),
    get_or-take n (drop offset (contents b)) i 0,
    get_or-drop offset (contents b) i 0,
    byte_at-memcpy_above dest 0 (take n (drop offset (contents b))) i,
    byte_at-memcpy_inside dest 0 (take n (drop offset (contents b))) i i,
  )

  viewed-window : viewed ≡ memcpy dest 0 (take n (drop offset (contents b)))
  viewed-window =
      list_ext 0 viewed (memcpy dest 0 (take n (drop offset (contents b))))
        (length-viewed ∙ sym (length-memcpy dest 0 (take n (drop offset (contents b)))))
        λ i _. byte_at-viewed i ∙ sym (byte_at-window i)

  view-viewed : b.locked ≡ false → buffer_view b dest offset n ≡ some (outcome n b (some viewed) [])
  unfolding buffer_view rbuf_linear_bytes_read
  view-viewed free = ground (arith, v.is_ring, buffer_n_read_bytes-eq (held-IsRing v))

module _ {b : Buffer} (v : IsRing b) (free : b.locked ≡ false) (dest : Bytes) (offset n : ℕ)
    (held_enough : offset + n ≤ used b) (room : n ≤ length dest) where
  -- On an unlocked valid ring, for bytes that are held and an offset that does not pass the end of the
  -- first run of them, a view copies exactly the `n` bytes behind the first `offset` to the start of the
  -- caller's memory, returns `n`, sends nothing, and leaves the buffer as it was.
  pub buffer_view-window :
      offset ≤ min (used b) (b.buf_len_bytes - b.read_ptr)
      → buffer_view b dest offset n
        ≡ some (outcome n b (some (memcpy dest 0 (take n (drop offset (contents b))))) [])
  buffer_view-window reach =
      view-viewed v dest offset n reach held_enough room free
      ∙ ap (λ out. some (outcome n b (some out) []))
          (viewed-window v dest offset n reach held_enough room)

  -- If the bytes held go round the end of the area and the offset passes that end, the view still
  -- returns `n`, but copies from the address `read_ptr + offset`, which is beyond the area.
  pub buffer_view-past_end :
      b.buf_len_bytes < b.read_ptr + offset
      → (buffer_view b dest offset n
          ≡ some (outcome n b (some (memcpy dest 0 (slice b.mem (b.read_ptr + offset) n))) []))
        × (length b.mem < b.read_ptr + offset)
  unfolding buffer_view
  buffer_view-past_end past = (
    ground (
      arith,
      v.is_ring,
      used-le v,
      buffer_n_read_bytes-eq (held-IsRing v),
      linear_read-eq (held-IsRing v),
    ),
    omega (arith, v.area),
  )
