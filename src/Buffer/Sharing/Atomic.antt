-- ===== src/Buffer/Sharing/Atomic.antt =====
-- Writes and reads of a shared ring of src/core/buffer.c take effect at one moment, on a bounded
-- queue.
use hiemal.Base.{
  ℕ, ◌-◌, ◌≤◌, ◌≡◌, refl, sym, ap, ap₂, ◌∙◌, false, ◌++◌, Bytes, length, slice, drop, min, arith,
  some, take,
}
use mathlib.Core.Path.{subst}
use hiemal.Base.Pieces.{drop-append}
use hiemal.Buffer.{Buffer, set_rbuf_state, set_buffer_state, set_lbuf_state, buffer_reset}
use hiemal.Buffer.Io.{rbuf_store, rbuf_fetch, rbuf_advance}
use hiemal.Buffer.Valid.{IsRing, used, contents, length-contents}
use hiemal.Buffer.Store.{stored-contents}
use hiemal.Buffer.Fetch.{advanced-contents}
use hiemal.Buffer.Sharing.{
  Shared, Pc, write_clamped, read_clamped, Move, store, settle_write, fetch, settle_read, System,
  pick, Steps, stay, later, opened,
}
use hiemal.Buffer.Sharing.Invariant.{Balanced, IsSound}
use hiemal.Buffer.Sharing.Moves.{store-Balanced, fetched_bytes, fetch-Balanced}
use hiemal.Buffer.Sharing.Safety.{Steps-Inv, opened-Inv}

-- The bytes written and not yet taken
abbrev pub queued : Shared → Bytes
queued s = drop (length s.taken) s.written

-- What the piece that starts at a place does to a queue of `cap` bytes, oldest first, for the bytes that the
-- caller asked to move: a write puts as many of its source as fit at the end, a read takes as many as there
-- are from the front, and every other piece leaves the queue alone.
abbrev pub Served : (cap : ℕ) → Pc → Shared → Shared → Type 0
Served cap (write_clamped src asked n) s s' =
    (queued s' ≡ queued s ++ slice src 0 (min asked (cap - length (queued s))))
    × (s'.taken ≡ s.taken)
Served cap (read_clamped dest asked n) s s' =
    let k = min asked (length (queued s)) in
    (queued s' ≡ drop k (queued s)) × (s'.taken ≡ s.taken ++ take k (queued s))
Served cap _ s s' = (queued s' ≡ queued s) × (s'.taken ≡ s.taken)

queued-Balanced : {s : Shared} {b : Buffer} → Balanced s b → queued s ≡ contents b
queued-Balanced {s} {b} d =
    ap (drop (length s.taken)) d.fifo ∙ drop-append s.taken (contents b) (length s.taken) refl

module _ {s : Shared} (d : Balanced s s.buf) where
  length-queued : length (queued s) ≡ used s.buf
  length-queued = ap length (queued-Balanced d) ∙ length-contents s.buf

  store-Served :
      (src : Bytes) (asked n : ℕ)
      → n ≤ s.buf.buf_len_bytes - used s.buf
      → n ≤ length src
      → (n ≡ 0 → used s.buf ≡ s.buf.buf_len_bytes)
      → n ≡ min asked (s.buf.buf_len_bytes - used s.buf)
      → Served s.buf.buf_len_bytes
          (write_clamped src asked n)
          s
          (record s { buf = rbuf_store s.buf src n; written = s.written ++ slice src 0 n })
  store-Served src asked n room enough full clamp =
      let all : n ≡ min asked (s.buf.buf_len_bytes - length (queued s)) =
        omega (arith, length-queued) in
      (
        queued-Balanced (store-Balanced d src n room enough full)
            ∙ stored-contents d.valid src n room enough full
            ∙ ap₂ (λ q k. q ++ slice src 0 k) (sym (queued-Balanced d)) all,
        refl,
      )

  fetch-Served :
      (dest got : Bytes) (asked n : ℕ)
      → n ≤ used s.buf
      → n ≤ length dest
      → (n ≡ 0 → used s.buf ≡ 0)
      → n ≡ min asked (used s.buf)
      → rbuf_fetch s.buf (some dest) n ≡ some got
      → Served s.buf.buf_len_bytes
          (read_clamped dest asked n)
          s
          (record s { buf = rbuf_advance s.buf n; taken = s.taken ++ take n got })
  fetch-Served dest got asked n held room empty clamp e =
      let all : n ≡ min asked (length (queued s)) = omega (arith, length-queued) in
      (
        queued-Balanced (fetch-Balanced d dest got n held room empty e)
            ∙ advanced-contents d.valid n held empty
            ∙ ap₂ drop all (sym (queued-Balanced d)),
        ap (λ xs. s.taken ++ xs)
            (sym (fetched_bytes d dest got n held room e) ∙ ap₂ take all (sym (queued-Balanced d))),
      )

Move-Served :
    {s s' : Shared} {p p' : Pc} → Move s p s' p' → IsSound s p → Served s.buf.buf_len_bytes p s s'
Move-Served (store {src} {asked} {n}) h = store-Served h.0 src asked n h.1 h.2 h.3 h.4
Move-Served (fetch {dest} {got} {asked} {n} e) h =
    fetch-Served h.0 dest got asked n h.1 h.2 h.3 h.4 e
Move-Served mv h = (refl, refl)

store-len :
    (b : Buffer) (src : Bytes) (n : ℕ) → (rbuf_store b src n).buf_len_bytes ≡ b.buf_len_bytes
unfolding rbuf_store
store-len b src n = ground arith

advance-len : (b : Buffer) (n : ℕ) → (rbuf_advance b n).buf_len_bytes ≡ b.buf_len_bytes
unfolding rbuf_advance
advance-len b n = refl

state-len : (b : Buffer) (mode : ℕ) → (set_buffer_state b mode).buf_len_bytes ≡ b.buf_len_bytes
unfolding set_buffer_state set_rbuf_state set_lbuf_state buffer_reset
state-len b mode = ground arith

Move-len : {s s' : Shared} {p p' : Pc} → Move s p s' p' → s'.buf.buf_len_bytes ≡ s.buf.buf_len_bytes
Move-len {s} (store {src} {n}) = store-len s.buf src n
Move-len {s} settle_write = state-len s.buf b'w'
Move-len {s} (fetch {n = n} e) = advance-len s.buf n
Move-len {s} settle_read = state-len s.buf b'r'
Move-len mv = refl

Steps-len : {s t : System} → Steps s t → t.mem.buf.buf_len_bytes ≡ s.mem.buf.buf_len_bytes
Steps-len stay = refl
Steps-len (later before (pick i mv)) = Move-len mv ∙ Steps-len before

-- However writers and readers of a ring interleave, the bytes written and not yet taken are a queue of the
-- capacity of the ring. In the piece in which a writer copies, as many bytes of its source as it was called for
-- and as the queue has room for are put at the end; in the piece in which a reader copies, as many bytes as it
-- was called for and as the queue holds are taken from the front, and are what it has copied; every other piece
-- leaves the queue alone. Whenever the mutex is free, the ring holds just this queue.
pub Steps-Served :
    {b : Buffer}
    → IsRing b
    → b.locked ≡ false
    → {s : System} → Steps (opened b) s
    → ((i : ℕ) (m : Shared) (p : Pc)
        → Move s.mem (s.pc i) m p
        → Served b.buf_len_bytes (s.pc i) s.mem m)
      × (s.mem.buf.locked ≡ false → contents s.mem.buf ≡ queued s.mem)
Steps-Served v free {s} run =
    let inv = Steps-Inv run (opened-Inv v free) in
    (
      λ i m p mv.
          subst (λ c. Served c (s.pc i) s.mem m) (Steps-len run) (Move-Served mv (inv.sound i)),
      λ e. sym (queued-Balanced (inv.unheld e)),
    )
