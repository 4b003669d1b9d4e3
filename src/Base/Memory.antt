-- ===== src/Base/Memory.antt =====
-- Memory areas as lists of bytes: `memcpy`, slices, and 32-bit differences.
use Prim.Native.Nat.{ℕ, zero, suc, ◌+◌, ◌-◌, ◌%◌, ◌^◌, ◌≤◌, ◌<◌}
use mathlib.Core.Path.{◌≡◌, refl, ap, ◌∙◌}
use mathlib.Core.List.{List, [], ◌∷◌}
use native.Mathlib.Omega.{arith}
use hiemal.Base.Tests.{ltb, leb, if◌then◌else◌}
use hiemal.Base.Lists.{
  length, get_or, set, take, drop, length-set, length-take, length-drop, get_or-set_self,
  get_or-set_ne, get_or-take, get_or-drop, list_ext,
}

abbrev pub Bytes : Type 0
Bytes = List ℕ

-- The byte at an offset; the reads of the model stay in range.
abbrev pub byte_at : Bytes → ℕ → ℕ
byte_at m i = get_or m i 0

-- `n` bytes from offset `off` on
abbrev pub slice : Bytes → ℕ → ℕ → Bytes
slice m off n = take n (drop off m)

-- `memcpy(m + off, src, length src)`; a byte beyond the area is not stored.
unfoldable pub memcpy : Bytes → ℕ → Bytes → Bytes
memcpy m off [] = m
memcpy m off (x ∷ xs) = memcpy (set m off x) (suc off) xs

-- `a - b` of two pointers or counts, converted to `unsigned int`
abbrev pub sub_u32 : ℕ → ℕ → ℕ
sub_u32 a b = (a + (2 ^ 32 - b % 2 ^ 32)) % 2 ^ 32

pub length-memcpy : (m : Bytes) (off : ℕ) (xs : Bytes) → length (memcpy m off xs) ≡ length m
unfolding memcpy
length-memcpy m off [] = refl
length-memcpy m off (x ∷ xs) = length-memcpy (set m off x) (suc off) xs ∙ length-set m off x

pub byte_at-memcpy_below :
    (m : Bytes) (off : ℕ) (xs : Bytes) (i : ℕ) → i < off → byte_at (memcpy m off xs) i ≡ byte_at m i
unfolding memcpy
byte_at-memcpy_below m off [] i h = refl
byte_at-memcpy_below m off (x ∷ xs) i h =
    byte_at-memcpy_below (set m off x) (suc off) xs i (omega arith)
    ∙ get_or-set_ne m off i x 0 (omega arith)

pub byte_at-memcpy_above :
    (m : Bytes) (off : ℕ) (xs : Bytes) (i : ℕ)
    → off + length xs ≤ i
    → byte_at (memcpy m off xs) i ≡ byte_at m i
unfolding memcpy
byte_at-memcpy_above m off [] i h = refl
byte_at-memcpy_above m off (x ∷ xs) i h =
    byte_at-memcpy_above (set m off x) (suc off) xs i (omega arith)
    ∙ get_or-set_ne m off i x 0 (omega arith)

pub byte_at-memcpy_inside :
    (m : Bytes) (off : ℕ) (xs : Bytes) (j i : ℕ)
    → off + length xs ≤ length m
    → j < length xs
    → i ≡ off + j
    → byte_at (memcpy m off xs) i ≡ byte_at xs j
unfolding memcpy
byte_at-memcpy_inside m off [] j i room lt e = elim lt [ ]
byte_at-memcpy_inside m off (x ∷ xs) zero i room lt e =
    byte_at-memcpy_below (set m off x) (suc off) xs i (omega arith)
    ∙ ap (λ k. byte_at (set m off x) k) (let p : i ≡ off = omega arith in p)
    ∙ get_or-set_self m off x 0 (omega arith)
byte_at-memcpy_inside m off (x ∷ xs) (suc j) i room lt e =
    byte_at-memcpy_inside (set m off x) (suc off) xs j i (omega (arith, length-set m off x))
      (omega arith) (omega arith)

-- `f i, f (i + 1), …`, `n` values
unfoldable pub tabulate : ℕ → (ℕ → ℕ) → ℕ → Bytes
tabulate zero f i = []
tabulate (suc n) f i = f i ∷ tabulate n f (suc i)

pub length-tabulate : (n : ℕ) (f : ℕ → ℕ) (i : ℕ) → length (tabulate n f i) ≡ n
unfolding tabulate
length-tabulate zero f i = refl
length-tabulate (suc n) f i = ap suc (length-tabulate n f (suc i))

pub byte_at-tabulate :
    (n : ℕ) (f : ℕ → ℕ) (i j : ℕ) → j < n → byte_at (tabulate n f i) j ≡ f (i + j)
unfolding tabulate
byte_at-tabulate zero f i j h = elim h [ ]
byte_at-tabulate (suc n) f i zero h = ap f (omega arith)
byte_at-tabulate (suc n) f i (suc j) h =
    byte_at-tabulate n f (suc i) j (omega arith) ∙ ap f (omega arith)

pub length-slice : (m : Bytes) (off n : ℕ) → off + n ≤ length m → length (slice m off n) ≡ n
length-slice m off n h = omega (arith, length-take n (drop off m), length-drop off m)

pub byte_at-slice :
    (m : Bytes) (off n j : ℕ) → j < n → byte_at (slice m off n) j ≡ byte_at m (off + j)
byte_at-slice m off n j h = get_or-take n (drop off m) j 0 h ∙ get_or-drop off m j 0

-- One byte of `memcpy` from a slice of the source
pub memcpy-slice :
    (m : Bytes) (off : ℕ) (src : Bytes) (from n i : ℕ)
    → from + n ≤ length src
    → off + n ≤ length m
    → byte_at (memcpy m off (slice src from n)) i ≡ (
        if leb off i
        then (if ltb i (off + n) then byte_at src (from + (i - off)) else byte_at m i)
        else byte_at m i)
memcpy-slice m off src from n i hs hm = ground (
  arith,
  length-slice src from n,
  byte_at-slice src from n (i - off),
  byte_at-memcpy_below m off (slice src from n) i,
  byte_at-memcpy_above m off (slice src from n) i,
  byte_at-memcpy_inside m off (slice src from n) (i - off) i,
)

-- The bytes that `memcpy` stores at the start of an area
pub take-memcpy : (m xs : Bytes) → length xs ≤ length m → take (length xs) (memcpy m 0 xs) ≡ xs
take-memcpy m xs le =
    list_ext 0 (take (length xs) (memcpy m 0 xs)) xs
      (omega (arith, length-take (length xs) (memcpy m 0 xs), length-memcpy m 0 xs))
      (λ i lt.
        let lt' : i < length xs =
          omega (arith, length-take (length xs) (memcpy m 0 xs), length-memcpy m 0 xs) in
        get_or-take (length xs) (memcpy m 0 xs) i 0 lt'
        ∙ byte_at-memcpy_inside m 0 xs i i (omega arith) lt' (omega arith))
