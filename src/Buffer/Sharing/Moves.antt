-- ===== src/Buffer/Sharing/Moves.antt =====
-- A piece of one thread keeps the invariant of a shared ring.
use hiemal.Base.{
  ℕ, ap₂, ◌-◌, ◌≤◌, ◌≡◌, refl, sym, ap, ◌∙◌, true, false, some, ◌++◌, append_assoc, Bytes, length,
  slice, take, drop, take-memcpy, take-drop, arith, length-take,
}
use mathlib.Core.Bool.{true≢false}
use mathlib.Core.Option.{some-injective}
use hiemal.Buffer.{Buffer, ring, set_rbuf_state, set_buffer_state, set_lbuf_state, buffer_reset}
use hiemal.Buffer.Io.{unlock, rbuf_store, rbuf_fetch, rbuf_advance}
use hiemal.Buffer.Valid.{
  used, used-le, contents, length-contents, buffer_n_write_bytes-eq, buffer_n_read_bytes-eq,
}
use hiemal.Buffer.Store.{stored-IsRing, stored-contents}
use hiemal.Buffer.Fetch.{fetch-prefix, advanced-IsRing, advanced-contents}
use hiemal.Buffer.Finish.{held-IsRing, unlock-IsRing, set_buffer_state-ring}
use hiemal.Buffer.Sharing.{
  Shared, Pc, idle, Move, lock_write, clamp_write, store, settle_write, lock_read, clamp_read,
  fetch, settle_read, wake_events, release, inside,
}
use hiemal.Buffer.Sharing.Invariant.{Balanced, IsSound}

module _ {s : Shared} (d : Balanced s s.buf) where
  lock-Balanced : let b = record s.buf { locked = true } in Balanced (record s { buf = b }) b
  lock-Balanced = record { valid = held-IsRing d.valid; fifo = d.fifo }

  release-Balanced : Balanced (record s { buf = unlock s.buf }) (unlock s.buf)
  release-Balanced = record { valid = unlock-IsRing d.valid; fifo = d.fifo }

  pub store-Balanced :
      (src : Bytes) (n : ℕ)
      → n ≤ s.buf.buf_len_bytes - used s.buf
      → n ≤ length src
      → (n ≡ 0 → used s.buf ≡ s.buf.buf_len_bytes)
      → let b = rbuf_store s.buf src n in
        Balanced
          (record s { buf = b; written = s.written ++ slice src 0 n })
          (set_rbuf_state b b'w')
  store-Balanced src n room enough full = record {
    valid = stored-IsRing d.valid src n room enough full;
    fifo =
        ap (λ xs. xs ++ slice src 0 n) d.fifo
        ∙ append_assoc s.taken (contents s.buf) (slice src 0 n)
        ∙ ap (λ xs. s.taken ++ xs) (sym (stored-contents d.valid src n room enough full));
  }

  -- What a reader has copied are the oldest bytes.
  pub fetched_bytes :
      (dest got : Bytes) (n : ℕ)
      → n ≤ used s.buf
      → n ≤ length dest
      → rbuf_fetch s.buf (some dest) n ≡ some got
      → take n (contents s.buf) ≡ take n got
  fetched_bytes dest got n held room e =
      let l : length (take n (contents s.buf)) ≡ n =
        omega (arith, length-take n (contents s.buf), length-contents s.buf) in
      sym (rw l at (take-memcpy dest (take n (contents s.buf)) (omega (arith, l))))
      ∙ ap (take n) (some-injective _ _ (sym (fetch-prefix d.valid n held dest room) ∙ e))

  pub fetch-Balanced :
      (dest got : Bytes) (n : ℕ)
      → n ≤ used s.buf
      → n ≤ length dest
      → (n ≡ 0 → used s.buf ≡ 0)
      → rbuf_fetch s.buf (some dest) n ≡ some got
      → let b = rbuf_advance s.buf n in
        Balanced (record s { buf = b; taken = s.taken ++ take n got }) (set_rbuf_state b b'r')
  fetch-Balanced dest got n held room empty e = record {
    valid = advanced-IsRing d.valid n held empty;
    fifo =
        d.fifo
        ∙ ap (λ xs. s.taken ++ xs) (sym (take-drop n (contents s.buf)))
        ∙ sym (append_assoc s.taken (take n (contents s.buf)) (drop n (contents s.buf)))
        ∙ ap₂ (λ xs ys. (s.taken ++ xs) ++ ys) (fetched_bytes dest got n held room e)
            (sym (advanced-contents d.valid n held empty));
  }

store-locked : (b : Buffer) (src : Bytes) (n : ℕ) → (rbuf_store b src n).locked ≡ b.locked
unfolding rbuf_store
store-locked b src n = ground arith

advance-locked : (b : Buffer) (n : ℕ) → (rbuf_advance b n).locked ≡ b.locked
unfolding rbuf_advance
advance-locked b n = refl

store-type : (b : Buffer) (src : Bytes) (n : ℕ) → (rbuf_store b src n).type ≡ b.type
unfolding rbuf_store
store-type b src n = ground arith

advance-type : (b : Buffer) (n : ℕ) → (rbuf_advance b n).type ≡ b.type
unfolding rbuf_advance
advance-type b n = refl

state-locked : (b : Buffer) (mode : ℕ) → (set_buffer_state b mode).locked ≡ b.locked
unfolding set_buffer_state set_rbuf_state set_lbuf_state buffer_reset
state-locked b mode = ground arith

settle-Balanced :
    {s : Shared} (mode : ℕ)
    → s.buf.type ≡ ring
    → Balanced s (set_rbuf_state s.buf mode)
    → let b = set_buffer_state s.buf mode in Balanced (record s { buf = b }) b
settle-Balanced {s} mode t d =
    rw (set_buffer_state-ring s.buf mode t) (record { valid = d.valid; fifo = d.fifo })

-- A thread that moves is inside, or finds the mutex free.
pub Move-enters :
    {s s' : Shared} {p p' : Pc} → Move s p s' p' → inside p ≡ false → s.buf.locked ≡ false
Move-enters (lock_write src n free nz enough) e = free
Move-enters (lock_read dest n free nz room) e = free
Move-enters mv e = ground arith

-- After its move the mutex is held just when it is inside.
pub Move-locked :
    {s s' : Shared} {p p' : Pc}
    → Move s p s' p'
    → (inside p ≡ true → s.buf.locked ≡ true)
    → s'.buf.locked ≡ inside p'
Move-locked {s} (store {src} {n}) h = store-locked s.buf src n ∙ h refl
Move-locked {s} settle_write h = state-locked s.buf b'w' ∙ h refl
Move-locked {s} (fetch {n = n} e) h = advance-locked s.buf n ∙ h refl
Move-locked {s} settle_read h = state-locked s.buf b'r' ∙ h refl
Move-locked mv h = ground arith

pub Move-IsSound :
    {s s' : Shared} {p p' : Pc}
    → Move s p s' p'
    → (s.buf.locked ≡ false → Balanced s s.buf)
    → IsSound s p
    → IsSound s' p'
Move-IsSound (lock_write src n free nz enough) b h = (lock-Balanced (b free), nz, enough)
Move-IsSound {s} (clamp_write {src} {n}) b h =
    let e = buffer_n_write_bytes-eq h.0.valid in
    (h.0, ground arith, ground arith, λ z. ground (arith, used-le h.0.valid), ground arith)
Move-IsSound {s} (store {src} {n}) b h =
    (store-type s.buf src n ∙ h.0.valid.is_ring, store-Balanced h.0 src n h.1 h.2 h.3)
Move-IsSound {s} settle_write b h = settle-Balanced b'w' h.0 h.1
Move-IsSound (lock_read dest n free nz room) b h = (lock-Balanced (b free), nz, room)
Move-IsSound {s} (clamp_read {dest} {n}) b h =
    let e = buffer_n_read_bytes-eq h.0.valid in
    (h.0, ground arith, ground arith, λ z. ground arith, ground arith)
Move-IsSound {s} (fetch {dest} {got} {n} e) b h =
    (advance-type s.buf n ∙ h.0.valid.is_ring, fetch-Balanced h.0 dest got n h.1 h.2 h.3 e)
Move-IsSound {s} settle_read b h = settle-Balanced b'r' h.0 h.1
Move-IsSound (wake_events e) b h = record { valid = h.valid; fifo = h.fifo }
Move-IsSound release b h = tt

pub IsSound-outside : (s : Shared) (p : Pc) → inside p ≡ false → IsSound s p
IsSound-outside s idle e = tt
IsSound-outside s _ e = absurd (true≢false e)

-- After its last piece a thread has left a ring in which the bytes balance.
pub IsSound-unheld :
    {s s' : Shared} {p p' : Pc}
    → Move s p s' p'
    → IsSound s p
    → inside p' ≡ false
    → Balanced s' s'.buf
IsSound-unheld release h e = release-Balanced h
IsSound-unheld mv h e = absurd (true≢false e)
