-- ===== src/Array/Valid.antt =====
-- Well-formed arrays, and what `hm_array_resize` and `hm_array_copy_raw` of src/core/common.c do to them.
use hiemal.Base.{
  ℕ, ◌+◌, ◌*◌, ◌-◌, ◌%◌, ◌^◌, ◌≤◌, ◌<◌, ◌≡◌, ◌≢◌, refl, true, false, none, some, ◌++◌, length, ltb,
  arith, Bytes, byte_at, memcpy, slice, list_ext, length-slice, byte_at-slice, length-memcpy,
  memcpy-slice, Option-cases, inl, inr, length-append, get_or-append_left, get_or-append_right,
}
use native.Mathlib.Nat.{mul-le-mul_right, add-mul, one-mul}
use native.Mathlib.Decide.{dec_lt}
use hiemal.Base.Int.{pos}
use hiemal.Array.{Allocator, Array, array_at, array_resize}

pub record IsArray (a : Array) : Type 0 where
  pub fits : a.n_items ≤ a.n_items_alloc
  pub area : a.n_items_alloc * a.item_size ≤ length a.buf

-- The bytes of the items
abbrev pub contents : Array → Bytes
contents a = slice a.buf 0 (a.n_items * a.item_size)

-- Whether there is room for `n` items, or `realloc` grants it
pub record IsGranted (c : Allocator) (a : Array) (n : ℕ) : Type 0 where
  pub grant : a.n_items_alloc < n → c.realloc a.buf (2 * n * a.item_size % 2 ^ 64) ≢ none
  pub small : n * a.item_size < 2 ^ 63

-- An array with room for `n` items, and the items of `a`
pub record IsResized (a a' : Array) (n : ℕ) : Type 0 where
  pub valid : IsArray a'
  pub room : n ≤ a'.n_items_alloc
  pub n_items : a'.n_items ≡ a.n_items
  pub item_size : a'.item_size ≡ a.item_size
  pub kept : (i : ℕ) → i < a.n_items * a.item_size → byte_at a'.buf i ≡ byte_at a.buf i

pub bytes-le : {a : Array} → IsArray a → a.n_items * a.item_size ≤ length a.buf
bytes-le {a = a} v = omega (arith, mul-le-mul_right a.item_size v.fits, v.area)

module _ (c : Allocator) {a : Array} (v : IsArray a) (n : ℕ) (g : IsGranted c a n) where
  resized :
      (m : Bytes)
      → a.n_items_alloc < n
      → c.realloc a.buf (2 * n * a.item_size % 2 ^ 64) ≡ some m
      → IsResized a (record a { buf = m; n_items_alloc = n }) n
  resized m lt e =
      let l = c.realloc-length a.buf m (2 * n * a.item_size % 2 ^ 64) e in
      let d : 2 * n * a.item_size ≡ 2 * (n * a.item_size) = omega arith in
      record {
        valid = record { fits = omega (arith, v.fits); area = omega (arith, l, d, g.small) };
        room = omega arith;
        n_items = refl;
        item_size = refl;
        kept = λ i lt'.
            c.realloc-kept a.buf m (2 * n * a.item_size % 2 ^ 64) i e (omega (arith, bytes-le v)) (
              omega (
                arith,
                d,
                g.small,
                mul-le-mul_right a.item_size (let h : a.n_items ≤ n = omega (arith, v.fits) in h),
              ));
      }

  -- `hm_array_resize` of a well-formed array, with the memory granted, returns 0, makes room for `n` items and
  -- keeps those it has.
  pub array_resize-room : (a' : Array) × (array_resize c a n ≡ (pos 0, a')) × IsResized a a' n
  unfolding array_resize
  array_resize-room = elim (dec_lt a.n_items_alloc n) [
    | yes lt ↦
        let test : ltb a.n_items_alloc n ≡ true = ground arith in
        rw test (elim (Option-cases (c.realloc a.buf (2 * n * a.item_size % 2 ^ 64))) [
          | inl e ↦ absurd (g.grant lt e)
          | inr (m, e) ↦ rw e (record a { buf = m; n_items_alloc = n }, refl, resized m lt e)
        ])
    | no ge ↦
        let test : ltb a.n_items_alloc n ≡ false = ground arith in
        rw test (
          a,
          refl,
          record {
            valid = v;
            room = omega arith;
            n_items = refl;
            item_size = refl;
            kept = λ i lt. refl;
          },
        )
  ]

-- Bytes that are copied right behind the first `off`
pub copy-end :
    (m : Bytes) (off : ℕ) (src : Bytes) (k : ℕ)
    → k ≤ length src
    → off + k ≤ length m
    → slice (memcpy m off (slice src 0 k)) 0 (off + k) ≡ slice m 0 off ++ slice src 0 k
copy-end m off src k hs hm =
    let m' = memcpy m off (slice src 0 k) in
    let l : length m' ≡ length m = length-memcpy m off (slice src 0 k) in
    let l1 : length (slice m' 0 (off + k)) ≡ off + k = length-slice m' 0 (off + k) (omega arith) in
    let l2 = length-slice m 0 off (omega arith) in
    let l3 = length-slice src 0 k (omega (arith, hs)) in
    list_ext 0 (slice m' 0 (off + k)) (slice m 0 off ++ slice src 0 k)
      (omega (arith, length-append (slice m 0 off) (slice src 0 k)))
      (λ i lt.
        let z : (j : ℕ) → 0 + j ≡ j = λ j. omega arith in
        ground (
          arith,
          l1,
          l2,
          l3,
          byte_at-slice m' 0 (off + k) i,
          byte_at-slice m 0 off i,
          byte_at-slice src 0 k (i - off),
          memcpy-slice m off src 0 k i,
          get_or-append_left (slice m 0 off) (slice src 0 k) i 0,
          get_or-append_right (slice m 0 off) (slice src 0 k) i 0,
          z i,
        ))

-- `hm_array_at` of a well-formed array gives the place of an item that it has, inside the buffer, and a null
-- pointer for any other index.
pub array_at-inside :
    {a : Array} (i : ℕ)
    → IsArray a
    → (i < a.n_items
        → (array_at a i ≡ some (i * a.item_size)) × (i * a.item_size + a.item_size ≤ length a.buf))
      × (a.n_items ≤ i → array_at a i ≡ none)
unfolding array_at
array_at-inside {a = a} i v = (
  λ lt. (
    ground arith,
    omega (
      arith,
      mul-le-mul_right a.item_size lt,
      bytes-le v,
      add-mul i 1 a.item_size,
      one-mul a.item_size,
    ),
  ),
  λ ge. ground arith,
)
