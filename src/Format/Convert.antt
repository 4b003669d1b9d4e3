-- ===== src/Format/Convert.antt =====
-- What `hm_format_convert` of src/core/format.c writes, in each direction.
use hiemal.Base.{
  ℕ, zero, suc, ◌+◌, ◌-◌, ◌*◌, ◌/◌, ◌≤◌, ◌<◌, ◌≡◌, ◌≢◌, ◌↔◌, refl, ap, ap₂, sym, ◌∙◌, Bool, true,
  false, Option, none, some, List, [], ◌∷◌, ◌++◌, length, ltb, ◌==◌, if◌then◌else◌, ◌>>=◌, Bytes,
  memcpy, slice, arith, ==_iff,
}
use hiemal.Format.{
  FormatType, default_format, s16le, f32le, Signature, Floats, eq_bool, same_type, convert_loop,
  format_convert, signature_equal, convert_bytes_available,
}

pub memcpy-append :
    (m : Bytes) (off : ℕ) (xs ys : Bytes)
    → memcpy m off (xs ++ ys) ≡ memcpy (memcpy m off xs) (off + length xs) ys
unfolding memcpy
memcpy-append m off [] ys = ap (λ k. memcpy m k ys) (omega arith)
memcpy-append m off (x ∷ xs) ys =
    memcpy-append (hiemal.Base.set m off x) (suc off) xs ys
    ∙ ap (λ k. memcpy (memcpy (hiemal.Base.set m off x) (suc off) xs) k ys) (omega arith)

module _ (c : Floats) where
  -- The samples from an offset on, converted one by one
  abbrev pub converted : ℕ → ℕ → Bytes → Bytes
  converted zero at src = []
  converted (suc k) at src = c.s16_to_f32 (slice src at 2) ++ converted k (at + 2) src

  loop-converted :
      (k fuel total written at : ℕ) (src dest : Bytes)
      → k < fuel
      → total ≡ written + 4 * k
      → convert_loop c s16le f32le 2 4 fuel total written at src dest
        ≡ some (total, memcpy dest written (converted k at src))
  unfolding convert_loop memcpy
  loop-converted k zero total written at src dest lt e = absurd (omega arith)
  loop-converted zero (suc fuel) total written at src dest lt e =
      let test : ltb written total ≡ false = ground arith in
      let e' : written ≡ total = omega arith in rw (test, e') refl
  loop-converted (suc k) (suc fuel) total written at src dest lt e =
      let test : ltb written total ≡ true = ground arith in
      let x = c.s16_to_f32 (slice src at 2) in
      let l : length x ≡ 4 = c.length-s16_to_f32 (slice src at 2) in
      rw test (
        loop-converted k fuel total (written + 4) (at + 2) src (memcpy dest written x) (omega arith)
          (omega arith)
        ∙ ap (λ m. some (total, m))
            (ap (λ k'. memcpy (memcpy dest written x) k' (converted k (at + 2) src))
                (omega (arith, l))
              ∙ sym (memcpy-append dest written x (converted k (at + 2) src))))

  -- `hm_format_convert` of `k` 16-bit samples to floats converts each of them, in order, and returns the
  -- number of bytes that they take.
  pub format_convert-widens :
      (k : ℕ) (src : Bytes) (from : Signature) (dest : Bytes) (to : Signature)
      → from.sample_format ≡ s16le
      → to.sample_format ≡ f32le
      → format_convert c src from dest to (2 * k) ≡ some (4 * k, memcpy dest 0 (converted k 0 src))
  unfolding format_convert
  format_convert-widens k src from dest to e e' =
      rw (e, e')
        (loop-converted k (2 * k * 2 + 1) (2 * k * 2) 0 0 src dest (omega arith) (omega arith)
          ∙ ap (λ n. some (n, memcpy dest 0 (converted k 0 src))) (omega arith))

  -- From floats to 16-bit samples nothing is converted: the ratio of the sizes is the integer 0. The number
  -- of bytes returned, and the number that `hm_format_convert_bytes_available` announces, are 0, and
  -- the destination is left as it is.
  pub format_convert-narrows :
      (n : ℕ) (src : Bytes) (from : Signature) (dest : Bytes) (to : Signature)
      → from.sample_format ≡ f32le
      → to.sample_format ≡ s16le
      → (format_convert c src from dest to n ≡ some (0, dest))
        × (convert_bytes_available c from.sample_format to.sample_format n ≡ some 0)
  unfolding format_convert convert_bytes_available
  format_convert-narrows n src from dest to e e' =
      let z : n * 0 ≡ 0 = omega arith in
      let z' : c.of_count n * 0 ≡ 0 = omega arith in rw (e, e', z, z') (refl, refl)

pub same_type_iff : (a b : FormatType) → (same_type a b ≡ true) ↔ (a ≡ b)
unfolding same_type
same_type_iff default_format default_format = (λ h. refl, λ h. refl)
same_type_iff default_format s16le = (λ h. cc, λ h. cc)
same_type_iff default_format f32le = (λ h. cc, λ h. cc)
same_type_iff s16le default_format = (λ h. cc, λ h. cc)
same_type_iff s16le s16le = (λ h. refl, λ h. refl)
same_type_iff s16le f32le = (λ h. cc, λ h. cc)
same_type_iff f32le default_format = (λ h. cc, λ h. cc)
same_type_iff f32le s16le = (λ h. cc, λ h. cc)
same_type_iff f32le f32le = (λ h. refl, λ h. refl)

eq_bool_iff : (a b : Bool) → (eq_bool a b ≡ true) ↔ (a ≡ b)
eq_bool_iff true true = (λ h. refl, λ h. refl)
eq_bool_iff true false = (λ h. cc, λ h. cc)
eq_bool_iff false true = (λ h. cc, λ h. cc)
eq_bool_iff false false = (λ h. refl, λ h. refl)

-- `hm_format_signature_equal` holds exactly for signatures with the same sample format, interleaving and
-- number of channels: the sampling rate does not count.
pub signature_equal-ignores_rate :
    (a b : Signature)
    → (signature_equal a b ≡ true) ↔ (
        (a.sample_format ≡ b.sample_format)
        × (a.interleaved ≡ b.interleaved)
        × (a.n_channels ≡ b.n_channels))
unfolding signature_equal
signature_equal-ignores_rate a b =
    let f = same_type_iff a.sample_format b.sample_format in
    let g = eq_bool_iff a.interleaved b.interleaved in (ground arith, ground arith)
