-- ===== src/Array/Concat.antt =====
-- What the copying and concatenating functions of src/core/common.c make of the items of an array.
use hiemal.Base.{
  ℕ, ◌+◌, ◌*◌, ◌%◌, ◌^◌, ◌≤◌, ◌<◌, ◌≡◌, refl, ap, ap₂, sym, ◌∙◌, none, ◌++◌, length, ltb, true,
  arith, Bytes, byte_at, memcpy, slice, list_ext, length-slice, byte_at-slice, length-memcpy,
}
use mathlib.Core.Path.{subst}
use native.Mathlib.Nat.{mul-le-mul_right, zero-add, zero-mul, add-mul}
use hiemal.Base.Int.{negsuc}
use hiemal.Array.{
  Allocator, Array, array_init, array_resize, array_copy_raw, array_concat, array_concat_raw,
}
use hiemal.Array.Valid.{
  IsArray, contents, IsGranted, IsResized, array_resize-room, copy-end, bytes-le,
}

-- The items of `a` with the bytes `more` behind them, in a well-formed array
pub record IsExtended (a r : Array) (k : ℕ) (more : Bytes) : Type 0 where
  pub valid : IsArray r
  pub n_items : r.n_items ≡ a.n_items + k
  pub item_size : r.item_size ≡ a.item_size
  pub contents : contents r ≡ contents a ++ more

module _ {a a' : Array} {n : ℕ} (v : IsArray a) (r : IsResized a a' n) where
  -- The room in bytes
  room-bytes : n * a.item_size ≤ length a'.buf
  room-bytes = omega (
    arith,
    mul-le-mul_right a.item_size r.room,
    ap (λ k. a'.n_items_alloc * k) r.item_size,
    r.valid.area,
  )

  -- A resized array keeps its contents.
  contents-resized : slice a'.buf 0 (a.n_items * a.item_size) ≡ contents a
  contents-resized =
      let k = a.n_items * a.item_size in
      let le' : k ≤ length a'.buf =
        omega (arith, bytes-le r.valid, ap₂ ◌*◌ r.n_items r.item_size) in
      let l = length-slice a'.buf 0 k (omega (arith, le')) in
      let l' = length-slice a.buf 0 k (omega (arith, bytes-le v)) in
      list_ext 0 (slice a'.buf 0 k) (contents a) (l ∙ sym l') (λ i lt.
        let lt' : i < k = omega (arith, l) in
        byte_at-slice a'.buf 0 k i lt'
        ∙ ap (byte_at a'.buf) (zero-add i)
        ∙ r.kept i lt'
        ∙ ap (byte_at a.buf) (sym (zero-add i))
        ∙ sym (byte_at-slice a.buf 0 k i lt'))

  -- The copy is made at `off`, of `len` bytes.
  extended :
      (k off len : ℕ) (src more : Bytes)
      → n ≡ a.n_items + k
      → off ≡ a.n_items * a.item_size
      → len ≡ k * a.item_size
      → len ≤ length src
      → slice src 0 len ≡ more
      → IsExtended a (record a' { buf = memcpy a'.buf off (slice src 0 len); n_items = n }) k more
  extended k off len src more e eo el enough em =
      let d : n * a.item_size ≡ off + len =
        ap (λ n. n * a.item_size) e ∙ add-mul a.n_items k a.item_size ∙ omega (arith, eo, el) in
      let d' : n * a'.item_size ≡ off + len = ap (λ z. n * z) r.item_size ∙ d in
      let l = length-memcpy a'.buf off (slice src 0 len) in
      record {
        valid = record { fits = r.room; area = omega (arith, r.valid.area, l) };
        n_items = e;
        item_size = r.item_size;
        contents =
            ap (slice (memcpy a'.buf off (slice src 0 len)) 0) d'
            ∙ copy-end a'.buf off src len enough (omega (arith, room-bytes, d))
            ∙ ap₂ ◌++◌ (ap (slice a'.buf 0) eo ∙ contents-resized) em;
      }

-- `hm_array_concat` of two well-formed arrays with items of one size, with the memory granted, leaves the
-- first well formed, with the items of the second behind its own.
pub array_concat-appends :
    (c : Allocator) {a b : Array}
    → IsArray a
    → IsArray b
    → a.item_size ≡ b.item_size
    → a.n_items + b.n_items < 2 ^ 32
    → IsGranted c a (a.n_items + b.n_items)
    → IsExtended a (array_concat c a b) b.n_items (contents b)
unfolding array_concat
array_concat-appends c {a = a} {b = b} v w e small g =
    let wrap : (a.n_items + b.n_items) % 2 ^ 32 ≡ a.n_items + b.n_items = omega arith in
    let (a', e', r) = array_resize-room c v (a.n_items + b.n_items) g in
    let y = ap₂ ◌*◌ r.n_items r.item_size in
    rw (wrap, e')
      (extended v r b.n_items (a'.n_items * a'.item_size) (b.n_items * b.item_size) b.buf
        (contents b) refl y (ap (λ z. b.n_items * z) (sym e)) (bytes-le w) refl)

-- An array with `n` items, whose bytes are `bytes`
pub record IsFilled (a r : Array) (n : ℕ) (bytes : Bytes) : Type 0 where
  pub valid : IsArray r
  pub n_items : r.n_items ≡ n
  pub item_size : r.item_size ≡ a.item_size
  pub contents : contents r ≡ bytes

-- `hm_array_copy_raw` into a well-formed array, with the memory granted, replaces its items by the bytes
-- copied.
pub array_copy_raw-replaces :
    (c : Allocator) {a : Array} (src : Bytes) (n : ℕ)
    → IsArray a
    → IsGranted c a n
    → n * a.item_size ≤ length src
    → IsFilled a (array_copy_raw c a src n) n (slice src 0 (n * a.item_size))
unfolding array_copy_raw
array_copy_raw-replaces c {a = a} src n v g enough =
    let (a', e, r) = array_resize-room c v n g in
    let v0 : IsArray (record a { n_items = 0 }) = record { fits = omega arith; area = v.area } in
    let r0 : IsResized (record a { n_items = 0 }) (record a' { n_items = 0 }) n = record {
      valid = record { fits = omega arith; area = r.valid.area };
      room = r.room;
      n_items = refl;
      item_size = r.item_size;
      kept = λ i lt. absurd (omega (arith, zero-mul a.item_size));
    } in
    let z : n * a'.item_size ≡ n * a.item_size = ap (λ z. n * z) r.item_size in
    let x =
      extended v0 r0 n 0 (n * a'.item_size) src (slice src 0 (n * a.item_size)) (sym (zero-add n))
        (sym (zero-mul a.item_size)) z (omega (arith, z, enough)) (ap (slice src 0) z) in
    rw e (record {
      valid = x.valid;
      n_items = refl;
      item_size = r.item_size;
      contents =
          x.contents
          ∙ ap (λ k. slice a.buf 0 k ++ slice src 0 (n * a.item_size)) (zero-mul a.item_size);
    })

-- `hm_array_concat_raw` of a well-formed array, with the memory granted, leaves it well formed, with the
-- bytes copied behind its items.
pub array_concat_raw-appends :
    (c : Allocator) {a : Array} (src : Bytes) (n : ℕ)
    → IsArray a
    → n * a.item_size ≤ length src
    → a.n_items + n < 2 ^ 32
    → IsGranted c (array_init a.item_size) n
    → IsGranted c a (a.n_items + n)
    → IsExtended a (array_concat_raw c a src n) n (slice src 0 (n * a.item_size))
unfolding array_concat_raw
array_concat_raw-appends c {a = a} src n v enough small g g' =
    let b = array_copy_raw c (array_init a.item_size) src n in
    let empty : IsArray (array_init a.item_size) = record {
      fits = omega arith;
      area = omega (arith, zero-mul a.item_size);
    } in
    let x : IsFilled (array_init a.item_size) b n (slice src 0 (n * a.item_size)) =
      array_copy_raw-replaces c src n empty g enough in
    let y =
      array_concat-appends c v x.valid (sym x.item_size) (omega (arith, x.n_items))
        (subst (λ z. IsGranted c a (a.n_items + z)) (sym x.n_items) g') in
    record {
      valid = y.valid;
      n_items = y.n_items ∙ ap (λ k. a.n_items + k) x.n_items;
      item_size = y.item_size;
      contents = y.contents ∙ ap (λ m. contents a ++ m) x.contents;
    }

resize-fails :
    (c : Allocator) (a : Array) (n : ℕ)
    → a.n_items_alloc < n
    → c.realloc a.buf (2 * n * a.item_size % 2 ^ 64) ≡ none
    → array_resize c a n ≡ (negsuc 0, a)
unfolding array_resize
resize-fails c a n lt e =
    let test : ltb a.n_items_alloc n ≡ true = ground arith in rw (test, e) refl

-- Where `realloc` fails for want of memory, `hm_array_concat` counts items for which there is no room, and
-- the array is no longer well formed.
pub array_concat-no_memory :
    (c : Allocator) (a b : Array)
    → a.n_items + b.n_items < 2 ^ 32
    → a.n_items_alloc < a.n_items + b.n_items
    → c.realloc a.buf (2 * (a.n_items + b.n_items) * a.item_size % 2 ^ 64) ≡ none
    → ¬ IsArray (array_concat c a b)
unfolding array_concat
array_concat-no_memory c a b small lt e v =
    let n = a.n_items + b.n_items in
    let wrap : n % 2 ^ 32 ≡ n = omega arith in
    let kept : (array_concat c a b).n_items_alloc ≡ a.n_items_alloc =
      ap (λ k. (array_resize c a k).1.n_items_alloc) wrap
      ∙ ap (λ p. p.1.n_items_alloc) (resize-fails c a n lt e) in
    let fits : n % 2 ^ 32 ≤ (array_concat c a b).n_items_alloc = v.fits in omega (arith, fits, kept)
