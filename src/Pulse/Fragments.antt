-- ===== src/Pulse/Fragments.antt =====
-- What `_hm_pulse_io_read` of src/core/pulse.c records.
use hiemal.Base.{
  ℕ, zero, suc, ◌+◌, ◌-◌, ◌≤◌, ◌≡◌, refl, ap, sym, ◌∙◌, false, some, List, [], ◌∷◌, ◌++◌, length,
  take, min, Bytes, arith, map, ltb, ◌==◌, if◌then◌else◌, append-nil, append_assoc, length-append,
}
use hiemal.Event.{Effect}
use hiemal.Buffer.{Buffer, buffer_n_write_bytes}
use hiemal.Buffer.Io.{Outcome, buffer_write}
use hiemal.Buffer.Valid.{used, contents, buffer_n_write_bytes-eq}
use hiemal.Buffer.Write.{Wrote, buffer_write-appends}
use hiemal.Io.Transfer.{IsIdle}
use hiemal.Pulse.Transfer.{bytes, Recorded, read_loop, hm_pulse_io_read}
use hiemal.Base.Pieces.{concat, take-piece}

-- `k` bytes were stored behind those of the ring, out of the fragments in front; those behind are left.
pub record IsRecorded (pieces : List Bytes) (b : Buffer) (before k : ℕ) (r : Recorded)
    : Type 0 where
  pub code : r.code ≡ before + k
  pub ring : IsIdle r.buf
  pub stored : contents r.buf ≡ contents b ++ take k (concat pieces)
  pub taken : List Bytes
  pub still : List Bytes
  pub parted : pieces ≡ taken ++ still
  pub left : r.left ≡ map bytes still
  pub covered : k ≤ length (concat taken)

read_loop-done :
    (ps : List Bytes) (b : Buffer) (before : ℕ) (fx : List Effect)
    → read_loop (map bytes ps) b 0 before fx
      ≡ some (record { code = before; buf = b; effects = fx; left = map bytes ps })
unfolding read_loop
read_loop-done [] b before fx = refl
read_loop-done (p ∷ ps) b before fx = refl

read_loop-step :
    (p : Bytes) (ps : List Bytes) (b : Buffer) (n before : ℕ) (fx : List Effect) (o : Outcome)
    → let k = if ltb (suc n) (length p) then suc n else length p in
      buffer_write b p k ≡ some o
      → read_loop (map bytes (p ∷ ps)) b (suc n) before fx
        ≡ read_loop (map bytes ps) o.buf (suc n - k) (before + k) (fx ++ o.effects)
unfolding read_loop
read_loop-step p ps b n before fx o e =
    let t : (suc n == 0) ≡ false = ground arith in rw (t, e) refl

done-IsRecorded :
    (ps : List Bytes) (b : Buffer) (before : ℕ) (fx : List Effect)
    → IsIdle b
    → IsRecorded ps b before 0
        (record { code = before; buf = b; effects = fx; left = map bytes ps })
done-IsRecorded ps b before fx v = record {
  code = omega arith;
  ring = v;
  stored = sym (append-nil (contents b));
  taken = [];
  still = ps;
  parted = refl;
  left = refl;
  covered = omega arith;
}

-- A piece stored first
IsRecorded-step :
    (p : Bytes) (ps : List Bytes) (b : Buffer) (n before k : ℕ) (o : Outcome) (r : Recorded)
    → k ≡ (if ltb n (length p) then n else length p)
    → Wrote b p k o
    → IsRecorded ps o.buf (before + k) (n - k) r
    → IsRecorded (p ∷ ps) b before n r
unfolding concat
IsRecorded-step p ps b n before k o r e wrote rec = record {
  code = rec.code ∙ ground (arith, e);
  ring = rec.ring;
  stored =
      rec.stored
      ∙ ap (λ xs. xs ++ take (n - k) (concat ps)) wrote.bytes
      ∙ append_assoc (contents b) (take k p) (take (n - k) (concat ps))
      ∙ ap (λ xs. contents b ++ xs) (take-piece p (concat ps) n k e);
  taken = p ∷ rec.taken;
  still = rec.still;
  parted = ap (λ xs. p ∷ xs) rec.parted;
  left = rec.left;
  covered = ground (arith, e, rec.covered, length-append p (concat rec.taken));
}

read_loop-stores :
    (ps : List Bytes) (b : Buffer) (n before : ℕ) (fx : List Effect)
    → IsIdle b
    → n ≤ b.buf_len_bytes - used b
    → n ≤ length (concat ps)
    → (r : Recorded) × (read_loop (map bytes ps) b n before fx ≡ some r)
      × IsRecorded ps b before n r
unfolding read_loop concat
read_loop-stores ps b zero before fx v room enough = (
  record { code = before; buf = b; effects = fx; left = map bytes ps },
  read_loop-done ps b before fx,
  done-IsRecorded ps b before fx v,
)
read_loop-stores [] b (suc n) before fx v room enough = absurd (omega arith)
read_loop-stores (p ∷ ps) b (suc n) before fx v room enough =
    let k = if ltb (suc n) (length p) then suc n else length p in
    let (o, e, wrote', fx') = buffer_write-appends p k v.valid v.unlocked (ground arith) in
    let k' : min k (b.buf_len_bytes - used b) ≡ k = ground arith in
    let wrote : Wrote b p k o = rw k' at wrote' in
    let idle : IsIdle o.buf = record { valid = wrote.valid; unlocked = wrote.released } in
    let (r, e', rec) =
      read_loop-stores ps o.buf (suc n - k) (before + k) (fx ++ o.effects) idle
        (omega (arith, wrote.filled, wrote.kept.len))
        (ground (arith, length-append p (concat ps))) in
    (
      r,
      read_loop-step p ps b n before fx o e ∙ e',
      IsRecorded-step p ps b (suc n) before k o r refl wrote rec,
    )

-- `_hm_pulse_io_read` stores the first bytes of the stream behind those of an unlocked valid ring, as many as are
-- asked for and the ring has room for, and returns their number, when the fragments of the stream, which has no
-- holes, add up to as many. What it leaves of the stream is whole fragments from its end; those in front of them
-- hold the bytes stored, and may hold more.
pub hm_pulse_io_read-records :
    (ps : List Bytes) (n : ℕ) {b : Buffer}
    → IsIdle b
    → min n (b.buf_len_bytes - used b) ≤ length (concat ps)
    → (r : Recorded) × (hm_pulse_io_read (map bytes ps) b n ≡ some r)
      × IsRecorded ps b 0 (min n (b.buf_len_bytes - used b)) r
unfolding hm_pulse_io_read
hm_pulse_io_read-records ps n {b = b} v enough =
    let k = min n (b.buf_len_bytes - used b) in
    let asked : (if ltb (buffer_n_write_bytes b) n then buffer_n_write_bytes b else n) ≡ k =
      ground (arith, buffer_n_write_bytes-eq v.valid) in
    rw asked (read_loop-stores ps b k 0 [] v (omega arith) enough)
