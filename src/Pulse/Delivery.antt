-- ===== src/Pulse/Delivery.antt =====
-- What `_hm_pulse_io_write` of src/core/pulse.c plays.
use hiemal.Base.{
  ℕ, zero, suc, ◌+◌, ◌-◌, ◌≤◌, ◌<◌, ◌≡◌, refl, ap, ◌∙◌, none, some, List, [], ◌∷◌, ◌++◌, length,
  take, drop, min, Bytes, slice, memcpy, arith, ltb, if◌then◌else◌, ◌>>=◌, length-take, take-memcpy,
}
use hiemal.Buffer.{Buffer}
use hiemal.Buffer.Io.{Outcome}
use hiemal.Buffer.Valid.{used, contents, length-contents}
use hiemal.Buffer.Read.{Took, buffer_read-takes}
use hiemal.Io.Transfer.{IsIdle}
use hiemal.Pulse.Transfer.{Played, write_loop, hm_pulse_io_write}
use hiemal.Base.Pieces.{concat, total, slice-split}

write_loop-done :
    (sizes : List ℕ) (m : Bytes) (at : ℕ) → write_loop sizes m at 0 ≡ some (at + 0, [])
unfolding write_loop
write_loop-done [] m at = ground arith
write_loop-done (size ∷ sizes) m at = ground arith

-- Enough answers end the loop, with the bytes in order.
write_loop-ends :
    (sizes : List ℕ) (m : Bytes) (at n : ℕ)
    → n ≤ total sizes
    → (ps : List Bytes) × (write_loop sizes m at n ≡ some (at + n, ps)) × (concat ps ≡ slice m at n)
unfolding write_loop concat total
write_loop-ends sizes m at zero le = ([], write_loop-done sizes m at, refl)
write_loop-ends [] m at (suc n) le = absurd (omega arith)
write_loop-ends (zero ∷ sizes) m at (suc n) le =
    let (ps, e, eq) = write_loop-ends sizes m at (suc n) (omega arith) in
    (ps, ground (arith, e), eq)
write_loop-ends (suc size ∷ sizes) m at (suc n) le =
    let k = if ltb (suc n) (suc size) then suc n else suc size in
    let (ps, e, eq) = write_loop-ends sizes m (at + k) (suc n - k) (ground arith) in
    (
      slice m at k ∷ ps,
      ground (arith, e),
      ap (λ xs. slice m at k ++ xs) eq ∙ slice-split m at k (suc n) (ground arith),
    )

-- Too few leave it waiting.
write_loop-waits :
    (sizes : List ℕ) (m : Bytes) (at n : ℕ) → total sizes < n → write_loop sizes m at n ≡ none
unfolding write_loop total
write_loop-waits [] m at n lt = ground arith
write_loop-waits (size ∷ sizes) m at n lt =
    let k = if ltb n size then n else size in
    ground (arith, write_loop-waits sizes m (at + k) (n - k))

-- What is played: the oldest bytes of the ring, in pieces
pub record IsPlayed (b : Buffer) (k : ℕ) (p : Played) : Type 0 where
  pub code : p.code ≡ k
  pub given : concat p.pieces ≡ take k (contents b)
  pub ring : IsIdle p.buf
  pub left : contents p.buf ≡ drop k (contents b)

module _ (malloc : ℕ → Bytes) (length-malloc : (n : ℕ) → length (malloc n) ≡ n) where
  -- The bytes that `buffer_read` stores at the start of the memory
  memory-front :
      (n : ℕ) (b : Buffer)
      → slice (memcpy (malloc n) 0 (take (min n (used b)) (contents b))) 0 (min n (used b))
        ≡ take (min n (used b)) (contents b)
  memory-front n b =
      let out = take (min n (used b)) (contents b) in
      let l : length out ≡ min n (used b) =
        omega (arith, length-take (min n (used b)) (contents b), length-contents b) in
      rw l at (take-memcpy (malloc n) out (omega (arith, l, length-malloc n)))

  module _ (sizes : List ℕ) (n : ℕ) {b : Buffer} (v : IsIdle b) where
    -- `_hm_pulse_io_write` after `buffer_read`
    write-loop :
        (o : Outcome) × Took b (some (malloc n)) (min n (used b)) o
        × (hm_pulse_io_write malloc sizes b n ≡ (
            write_loop sizes
              (memcpy (malloc n) 0 (take (min n (used b)) (contents b)))
              0
              (min n (used b))
            >>= λ r. some (record { code = r.0; buf = o.buf; effects = o.effects; pieces = r.1 })))
    unfolding hm_pulse_io_write
    write-loop =
        let (o, e, took, fx) =
          buffer_read-takes (some (malloc n)) n v.valid v.unlocked
            (omega (arith, length-malloc n)) in
        let asked : (if ltb o.code n then o.code else n) ≡ min n (used b) =
          ground (arith, took.count) in
        (o, took, rw (e, took.given, asked) refl)

    -- `_hm_pulse_io_write` takes the oldest bytes out of an unlocked valid ring, as many as are asked for and there,
    -- hands them to the stream in order, in pieces, and returns their number, when the sizes that the server answers
    -- with add up to as many.
    pub hm_pulse_io_write-plays :
        min n (used b) ≤ total sizes
        → (p : Played) × (hm_pulse_io_write malloc sizes b n ≡ some p)
          × IsPlayed b (min n (used b)) p
    hm_pulse_io_write-plays enough =
        let k = min n (used b) in
        let (o, took, e) = write-loop in
        let (ps, e', eq) =
          write_loop-ends sizes (memcpy (malloc n) 0 (take k (contents b))) 0 k enough in
        (
          record { code = 0 + k; buf = o.buf; effects = o.effects; pieces = ps },
          e ∙ rw e' refl,
          record {
            code = omega arith;
            given = eq ∙ memory-front n b;
            ring = record { valid = took.valid; unlocked = took.released };
            left = took.bytes;
          },
        )

    -- `_hm_pulse_io_write` from an unlocked valid ring has not returned after the last answer of the server when the
    -- sizes that it answers with add up to less than the bytes that are asked for and there.
    pub hm_pulse_io_write-waits :
        total sizes < min n (used b) → hm_pulse_io_write malloc sizes b n ≡ none
    hm_pulse_io_write-waits few =
        let k = min n (used b) in
        let (o, took, e) = write-loop in
        e ∙ rw (write_loop-waits sizes (memcpy (malloc n) 0 (take k (contents b))) 0 k few) refl
