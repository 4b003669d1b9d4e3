-- ===== src/Buffer/Init.antt =====
-- `buffer_init` and `buffer_copy` of src/core/buffer.c.
use hiemal.Base.{
  ℕ, ◌^◌, ◌<◌, ◌≡◌, refl, sym, ◌∙◌, false, [], arith, Bytes, length, replicate, length-replicate,
  memcpy, slice, list_ext, length-memcpy, memcpy-slice, tabulate,
}
use hiemal.Buffer.{Buffer, ring, buffer_init, buffer_init_ext, buffer_copy}
use hiemal.Buffer.Descriptors.{fd_set_init}
use hiemal.Buffer.Valid.{IsRing, contents}

-- A new ring of 1 to 2^31 - 1 bytes is valid, empty and unlocked.
pub buffer_init-IsRing :
    (n junk : ℕ)
    → 0 < n
    → n < 2 ^ 31
    → let b = buffer_init n ring junk in IsRing b × (contents b ≡ []) × (b.locked ≡ false)
unfolding buffer_init buffer_init_ext tabulate
buffer_init-IsRing n junk pos small = (ground (arith, length-replicate {A = ℕ} n 0), refl, refl)

copied : (m : Bytes) (n : ℕ) → length m ≡ n → memcpy (replicate n 0) 0 (slice m 0 n) ≡ m
copied m n e =
    list_ext 0 (memcpy (replicate n 0) 0 (slice m 0 n)) m
      (length-memcpy (replicate n 0) 0 (slice m 0 n) ∙ length-replicate {A = ℕ} n 0 ∙ sym e)
      λ i lt.
        let lt' : i < n =
          omega
            (arith, length-memcpy (replicate n 0) 0 (slice m 0 n), length-replicate {A = ℕ} n 0) in
        memcpy-slice (replicate n 0) 0 m 0 n i (omega arith)
          (omega (arith, length-replicate {A = ℕ} n 0))
        ∙ ground arith

-- A copy of a valid ring is a valid ring with the same bytes to be read, and it starts unlocked, with
-- signals not held, no events, and a new descriptor set: a copy is not wired to what its source is.
pub buffer_copy-contents :
    {b : Buffer} (junk : ℕ)
    → IsRing b
    → let b' = buffer_copy b junk in
      IsRing b'
      × (contents b' ≡ contents b)
      × (b'.locked ≡ false)
      × (b'.fd_hold ≡ false)
      × (b'.event_list ≡ [])
      × (b'.fd_set ≡ fd_set_init junk)
unfolding buffer_copy buffer_init buffer_init_ext
buffer_copy-contents {b} junk v =
    rw (copied b.mem b.buf_len_bytes v.area)
      (ground (arith, v.is_ring), refl, refl, refl, refl, refl)
