-- ===== src/Dsp/Shift.antt =====
-- The shifts of src/core/dsp.c against lists.
use hiemal.Base.{
  ℕ, zero, suc, ◌+◌, ◌-◌, ◌≤◌, ◌≡◌, refl, ap, sym, ◌∙◌, List, [], ◌∷◌, ◌++◌, length, take, drop,
  leb, ltb, if◌then◌else◌, byte_at, set, memcpy, replicate, arith, min, true, false, append-nil,
  list_ext, length-set, length-append, length-take, length-drop, length-replicate, length-memcpy,
  get_or-set_self, get_or-set_ne, get_or-append_left, get_or-append_right, get_or-take, get_or-drop,
  byte_at-memcpy_below, byte_at-memcpy_above, byte_at-memcpy_inside,
}
use native.Mathlib.Decide.{dec_lt}
use hiemal.Dsp.{Area, down_loop, up_loop, buf_shift_down_64, buf_shift_up_64}

length-down_loop : (k i n : ℕ) (xs : List ℕ) → length (down_loop k i n xs) ≡ length xs
unfolding down_loop
length-down_loop zero i n xs = refl
length-down_loop (suc k) i n xs =
    length-down_loop k (suc i) n (set xs i (byte_at xs (i + n)))
    ∙ length-set xs i (byte_at xs (i + n))

length-up_loop : (k n : ℕ) (xs : List ℕ) → length (up_loop k n xs) ≡ length xs
unfolding up_loop
length-up_loop zero n xs = refl
length-up_loop (suc k) n xs =
    length-up_loop k n (set xs (k + n) (byte_at xs k)) ∙ length-set xs (k + n) (byte_at xs k)

byte_at-down_loop :
    (k i n : ℕ) (xs : List ℕ) (j : ℕ)
    → i + k + n ≤ length xs
    → byte_at (down_loop k i n xs) j ≡ (
        if leb i j
        then (if ltb j (i + k) then byte_at xs (j + n) else byte_at xs j)
        else byte_at xs j)
unfolding down_loop
byte_at-down_loop zero i n xs j le = ground arith
byte_at-down_loop (suc k) i n xs j le =
    let x = byte_at xs (i + n) in
    byte_at-down_loop k (suc i) n (set xs i x) j (omega (arith, length-set xs i x))
    ∙ ground (
      arith,
      get_or-set_self xs i x 0,
      get_or-set_ne xs i j x 0,
      get_or-set_ne xs i (j + n) x 0,
      ap (λ m. byte_at xs (m + n)),
    )

byte_at-up_loop :
    (k n : ℕ) (xs : List ℕ) (j : ℕ)
    → k + n ≤ length xs
    → byte_at (up_loop k n xs) j ≡ (
        if leb n j
        then (if ltb j (k + n) then byte_at xs (j - n) else byte_at xs j)
        else byte_at xs j)
unfolding up_loop
byte_at-up_loop zero n xs j le = ground arith
byte_at-up_loop (suc k) n xs j le =
    let x = byte_at xs k in
    byte_at-up_loop k n (set xs (k + n) x) j (omega (arith, length-set xs (k + n) x))
    ∙ ground (
      arith,
      get_or-set_self xs (k + n) x 0,
      get_or-set_ne xs (k + n) j x 0,
      get_or-set_ne xs (k + n) (j - n) x 0,
    )

byte_at-zeros : (k j : ℕ) → byte_at (replicate k 0) j ≡ 0
byte_at-zeros zero j = refl
byte_at-zeros (suc k) zero = refl
byte_at-zeros (suc k) (suc j) = byte_at-zeros k j

-- `memcpy` of zeros over a part of an area
byte_at-memset :
    (xs : List ℕ) (at k j : ℕ)
    → at + k ≤ length xs
    → byte_at (memcpy xs at (replicate k 0)) j
      ≡ (if leb at j then (if ltb j (at + k) then 0 else byte_at xs j) else byte_at xs j)
byte_at-memset xs at k j le = ground (
  arith,
  length-replicate {A = ℕ} k 0,
  byte_at-zeros k (j - at),
  byte_at-memcpy_below xs at (replicate k 0) j,
  byte_at-memcpy_above xs at (replicate k 0) j,
  byte_at-memcpy_inside xs at (replicate k 0) (j - at) j,
)

drop-past : (n : ℕ) (xs : List ℕ) → length xs ≤ n → drop n xs ≡ []
drop-past zero [] le = refl
drop-past zero (x ∷ xs) le = elim le [ ]
drop-past (suc n) [] le = refl
drop-past (suc n) (x ∷ xs) le = drop-past n xs (omega arith)

module _ (a : Area) (n : ℕ) where
  -- `_buf_shift_down_64` drops the first `n_shift` items, or all where there are fewer, and puts as many zeros behind
  -- the rest; it clears the bytes behind the items only where it drops all of them.
  pub buf_shift_down_64-shifts :
      let b = buf_shift_down_64 a n in
      (b.items ≡ drop n a.items ++ replicate (min n (length a.items)) 0)
      × (b.tail ≡ (if leb (length a.items) n then replicate (length a.tail) 0 else a.tail))
  unfolding buf_shift_down_64
  buf_shift_down_64-shifts = elim (dec_lt n (length a.items)) [
    | no ge ↦
        let t : leb (length a.items) n ≡ true = ground arith in
        let m : min n (length a.items) ≡ length a.items = omega arith in
        rw (t, m, drop-past n a.items (omega arith)) (refl, refl)
    | yes lt ↦
        let t : leb (length a.items) n ≡ false = ground arith in
        let m : min n (length a.items) ≡ n = omega arith in
        let k = length a.items - n in
        let moved = down_loop k 0 n a.items in
        let out = memcpy moved k (replicate n 0) in
        let l : length out ≡ length a.items =
          length-memcpy moved k (replicate n 0) ∙ length-down_loop k 0 n a.items in
        rw (t, m)
          (
            list_ext 0 out (drop n a.items ++ replicate n 0)
                (omega (
                  arith,
                  l,
                  length-append (drop n a.items) (replicate n 0),
                  length-drop n a.items,
                  length-replicate {A = ℕ} n 0,
                ))
                (λ j lt. ground (
                  arith,
                  l,
                  length-down_loop k 0 n a.items,
                  length-drop n a.items,
                  byte_at-memset moved k n j,
                  byte_at-down_loop k 0 n a.items j,
                  get_or-append_left (drop n a.items) (replicate n 0) j 0,
                  get_or-append_right (drop n a.items) (replicate n 0) j 0,
                  get_or-drop n a.items j 0,
                  byte_at-zeros n (j - length (drop n a.items)),
                  ap (byte_at a.items),
                )),
            refl,
          )
  ]

  -- `_buf_shift_up_64` puts `n_shift` zeros, or as many as there are items, in front of the first items, drops as
  -- many of the last, and leaves the bytes behind the items.
  pub buf_shift_up_64-shifts :
      let b = buf_shift_up_64 a n in
      (b.items ≡ replicate (min n (length a.items)) 0 ++ take (length a.items - n) a.items)
      × (b.tail ≡ a.tail)
  unfolding buf_shift_up_64
  buf_shift_up_64-shifts = elim (dec_lt n (length a.items)) [
    | no ge ↦
        let t : leb (length a.items) n ≡ true = ground arith in
        let m : min n (length a.items) ≡ length a.items = omega arith in
        let z : length a.items - n ≡ 0 = omega arith in
        rw (t, m, z) (sym (append-nil (replicate (length a.items) 0)), refl)
    | yes lt ↦
        let t : leb (length a.items) n ≡ false = ground arith in
        let m : min n (length a.items) ≡ n = omega arith in
        let k = length a.items - n in
        let moved = up_loop k n a.items in
        let out = memcpy moved 0 (replicate n 0) in
        let l : length out ≡ length a.items =
          length-memcpy moved 0 (replicate n 0) ∙ length-up_loop k n a.items in
        rw (t, m)
          (
            list_ext 0 out (replicate n 0 ++ take k a.items)
                (omega (
                  arith,
                  l,
                  length-append (replicate n 0) (take k a.items),
                  length-take k a.items,
                  length-replicate {A = ℕ} n 0,
                ))
                (λ j lt. ground (
                  arith,
                  l,
                  length-up_loop k n a.items,
                  length-replicate {A = ℕ} n 0,
                  byte_at-memset moved 0 n j,
                  byte_at-up_loop k n a.items j,
                  get_or-append_left (replicate n 0) (take k a.items) j 0,
                  get_or-append_right (replicate n 0) (take k a.items) j 0,
                  get_or-take k a.items (j - n) 0,
                  byte_at-zeros n j,
                  ap (byte_at (take k a.items)),
                )),
            refl,
          )
  ]
