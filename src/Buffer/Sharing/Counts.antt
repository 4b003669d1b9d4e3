-- ===== src/Buffer/Sharing/Counts.antt =====
-- What `buffer_n_read_bytes` of src/core/buffer.c, which takes no mutex, reports while a reader is inside.
use hiemal.Base.{◌≡◌, arith, ◌⊎◌, ◌∙◌, ◌<◌, ◌^◌}
use native.Mathlib.Nat.{mod_self, zero-mod}
use hiemal.Base.Int.{rem, ◌+ℤ◌}
use hiemal.Buffer.{
  Buffer, ring, normal, set_rbuf_state, set_buffer_state, rbuf_n_write_bytes, rbuf_n_read_bytes,
  buffer_n_read_bytes,
}
use hiemal.Buffer.Io.{rbuf_advance}
use hiemal.Buffer.Valid.{IsRing, used, linear_read-eq, buffer_n_read_bytes-eq}
use hiemal.Buffer.Finish.{set_buffer_state-ring}
use hiemal.Buffer.Fetch.{advanced-used, advanced-IsRing}

counted :
    (b : Buffer)
    → b.type ≡ ring
    → b.state ≡ normal
    → b.buf_len_bytes < 2 ^ 31
    → (b.read_ptr ≡ b.write_ptr) ⊎ ((b.read_ptr ≡ b.buf_len_bytes) × (b.write_ptr ≡ 0))
    → buffer_n_read_bytes b ≡ b.buf_len_bytes
unfolding buffer_n_read_bytes rbuf_n_read_bytes rbuf_n_write_bytes rem ◌+ℤ◌
counted b t e small m = ground (arith, mod_self b.buf_len_bytes, zero-mod b.buf_len_bytes)

module _ {b : Buffer} (v : IsRing b) (state : b.state ≡ normal) where
  met :
      let p = (rbuf_advance b (used b)).read_ptr in
      (p ≡ b.write_ptr) ⊎ ((p ≡ b.buf_len_bytes) × (b.write_ptr ≡ 0))
  unfolding rbuf_advance
  met = ground (arith, linear_read-eq v)

  -- On a valid ring whose state is normal: once a read of all bytes has moved the read pointer, and before
  -- it sets the state, the number of bytes to read is the size of the ring; once the state is set, it is 0.
  pub buffer_n_read_bytes-mid_read :
      let b' = rbuf_advance b (used b) in
      (buffer_n_read_bytes b' ≡ b.buf_len_bytes)
      × (buffer_n_read_bytes (set_buffer_state b' b'r') ≡ 0)
  unfolding rbuf_advance
  buffer_n_read_bytes-mid_read = (
    counted (rbuf_advance b (used b)) v.is_ring state v.small met,
    rw (set_buffer_state-ring (rbuf_advance b (used b)) b'r' v.is_ring) (
        buffer_n_read_bytes-eq after
        ∙ omega (arith, advanced-used v (used b) (omega arith) λ e. e)),
  )
    where
      after : IsRing (set_rbuf_state (rbuf_advance b (used b)) b'r')
      after = advanced-IsRing v (used b) (omega arith) λ e. e
