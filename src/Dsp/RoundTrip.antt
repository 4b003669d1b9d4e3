-- ===== src/Dsp/RoundTrip.antt =====
-- Samples converted to `double` and back by src/core/dsp.c.
use hiemal.Base.{
  ℕ, zero, suc, ◌+◌, ◌-◌, ◌*◌, ◌/◌, ◌≤◌, ◌≡◌, refl, ap, ap₂, sym, ◌∙◌, some, List, [], ◌∷◌, ◌++◌,
  length, take, drop, Bytes, memcpy, arith, map, length-take, length-drop, length-memcpy,
  length-append,
}
use hiemal.Base.Pieces.{concat, take-all, take-split, memcpy_whole, drop-append, take-append_under}
use hiemal.Buffer.{Buffer}
use hiemal.Buffer.Valid.{used, contents, length-contents}
use hiemal.Io.Transfer.{IsIdle}
use hiemal.Dsp.Samples.{
  Moving, converted, convert_impl, Samples, to_double, to_pcm16, length-to_double, length-to_pcm16,
  pcm16_to_double, double_to_pcm16,
}
use hiemal.Dsp.Moves.{samples, room, move_samples-HasMoved}

length-samples : (size k : ℕ) (s xs : Bytes) → length (samples size k s xs) ≡ k
unfolding samples
length-samples size zero s xs = refl
length-samples size (suc k) s xs = ap suc (length-samples size k _ _)

-- Whole samples are the bytes themselves.
concat-samples :
    (size k : ℕ) (s xs : Bytes)
    → length s ≡ size
    → k * size ≤ length xs
    → concat (samples size k s xs) ≡ take (k * size) xs
unfolding samples concat
concat-samples size zero s xs l le = let z : 0 * size ≡ 0 = omega arith in rw z refl
concat-samples size (suc k) s xs l le =
    let n : suc k * size ≡ size + k * size = omega arith in
    let first : length (take size xs) ≡ size = omega (arith, length-take size xs) in
    let whole : memcpy s 0 (take size xs) ≡ take size xs =
      memcpy_whole s (take size xs) (l ∙ sym first) in
    let rest =
      concat-samples size k (memcpy s 0 (take size xs)) (drop size xs)
        (length-memcpy s 0 (take size xs) ∙ l) (omega (arith, length-drop size xs)) in
    let m : size + k * size - size ≡ k * size = omega arith in
    rw (rest, whole, n, take-split xs size (size + k * size) (omega arith), m) refl

length-concat :
    {size : ℕ} (g : Bytes → Bytes)
    → ((x : Bytes) → length (g x) ≡ size)
    → (ys : List Bytes) → length (concat (map g ys)) ≡ length ys * size
unfolding concat
length-concat {size} g h [] = omega arith
length-concat {size} g h (y ∷ ys) =
    omega (arith, length-append (g y) (concat (map g ys)), h y, length-concat g h ys)

-- A row of items is read back item by item.
samples-concat :
    {size : ℕ} (g : Bytes → Bytes)
    → ((x : Bytes) → length (g x) ≡ size)
    → (ys : List Bytes) (s : Bytes) → length s ≡ size
    → samples size (length ys) s (concat (map g ys)) ≡ map g ys
unfolding samples concat
samples-concat g h [] s l = refl
samples-concat {size} g h (y ∷ ys) s l =
    let first : take size (g y ++ concat (map g ys)) ≡ g y =
      take-append_under (g y) _ size (omega (arith, h y))
      ∙ take-all size (g y) (omega (arith, h y)) in
    let rest : drop size (g y ++ concat (map g ys)) ≡ concat (map g ys) =
      drop-append (g y) _ size (h y) in
    let whole : memcpy s 0 (g y) ≡ g y = memcpy_whole s (g y) (l ∙ sym (h y)) in
    rw (first, rest, whole) (ap (λ zs. g y ∷ zs) (samples-concat g h ys (g y) (h y)))

-- What IEEE 754 says of the operations on 16-bit samples: a quotient by a power of two is exact and keeps its value as
-- a `double`, so that the product with that power is the sample; and a whole number of 16 bits is the same number as a
-- `float`, as a `double`, and as an integer again.
pub record IsExact (c : Samples) : Type 0 where
  pub scaled :
      (x : Bytes)
      → length x ≡ 2
      → c.double_mul
          (c.double_of_float (c.float_div (c.float_of_uint16 x) (c.float_of_int 32768)))
          (c.double_of_int 32768)
        ≡ c.double_of_float (c.float_of_uint16 x)
  pub whole :
      (x : Bytes) → length x ≡ 2 → c.uint16_of_double (c.double_of_float (c.float_of_uint16 x)) ≡ x

module _ (c : Samples) (exact : IsExact c) where
  back : (x : Bytes) → length x ≡ 2 → to_pcm16 c (to_double c x) ≡ x
  unfolding to_pcm16 to_double
  back x l = ap c.uint16_of_double (exact.scaled x l) ∙ exact.whole x l

  samples_back :
      (k : ℕ) (s xs : Bytes)
      → length s ≡ 2
      → map (to_pcm16 c) (map (to_double c) (samples 2 k s xs)) ≡ samples 2 k s xs
  unfolding samples
  samples_back zero s xs l = refl
  samples_back (suc k) s xs l =
      let l' = length-memcpy s 0 (take 2 xs) ∙ l in
      ap₂ ◌∷◌ (back (memcpy s 0 (take 2 xs)) l') (samples_back k _ (drop 2 xs) l')

  decoded :
      (k : ℕ) (j j' xs : Bytes)
      → length j ≡ 2
      → length j' ≡ 8
      → k * 2 ≤ length xs
      → concat (map (to_pcm16 c) (samples 8 k j' (concat (map (to_double c) (samples 2 k j xs)))))
        ≡ take (k * 2) xs
  decoded k j j' xs l l' le =
      let again : samples 8 k j' (concat (map (to_double c) (samples 2 k j xs)))
          ≡ map (to_double c) (samples 2 k j xs) =
        rw (length-samples 2 k j xs) at
          (samples-concat (to_double c) (length-to_double c) (samples 2 k j xs) j' l') in
      rw (again, samples_back k j xs l) (concat-samples 2 k j xs l le)

-- An empty ring with room for them holds the doubles.
held_doubles :
    (c : Samples) (k : ℕ) (mid : Buffer) (j xs : Bytes)
    → contents mid ≡ []
    → k * 8 ≤ room mid
    → contents mid ++ take (room mid) (concat (map (to_double c) (samples 2 k j xs)))
      ≡ concat (map (to_double c) (samples 2 k j xs))
held_doubles c k mid j xs nil fit = rw nil (
    take-all (room mid) (concat (map (to_double c) (samples 2 k j xs))) (
      omega (
        arith,
        length-concat (to_double c) (length-to_double c) (samples 2 k j xs),
        length-samples 2 k j xs,
      )))

-- As many bytes as whole samples, from a ring that holds them, through an empty ring with room for the
-- doubles, with variables of the sizes of the two samples: `pcm16_to_double` and then `double_to_pcm16`
-- both return, and append to the last ring the bytes taken from the first, as many as it has room for, if
-- the floating-point operations are exact on 16-bit samples.
pub double_to_pcm16-pcm16_to_double :
    (c : Samples)
    → IsExact c
    → (k : ℕ) (src mid dest : Buffer) (junk junk' : Bytes) → IsIdle src
    → IsIdle mid
    → IsIdle dest
    → k * 2 ≤ used src
    → contents mid ≡ []
    → k * 8 ≤ room mid
    → length junk ≡ 2
    → length junk' ≡ 8
    → (m1 : Moving) × (m2 : Moving) × (pcm16_to_double c junk (k * 2) (src ∷ []) (mid ∷ [])
        ≡ some (converted m1))
      × (double_to_pcm16 c junk' (k * 8) (m1.dest ∷ []) (dest ∷ []) ≡ some (converted m2))
      × (contents m1.src ≡ drop (k * 2) (contents src))
      × (contents m2.dest ≡ contents dest ++ take (room dest) (take (k * 2) (contents src)))
unfolding pcm16_to_double double_to_pcm16 convert_impl
double_to_pcm16-pcm16_to_double c exact k src mid dest j j' is im id_ le nil fit l l' =
    let start : Moving = record { sample = j; src = src; dest = mid; effects = [] } in
    let (m1, e1, h1) =
      move_samples-HasMoved (to_double c) 2 8 (length-to_double c) k start is im
        (omega (arith, l)) in
    let start' : Moving = record { sample = j'; src = m1.dest; dest = dest; effects = [] } in
    let (m2, e2, h2) =
      move_samples-HasMoved (to_pcm16 c) 8 2 (length-to_pcm16 c) k start' h1.dest_idle id_
        (omega (arith, l')) in
    let n : k * 2 / 2 ≡ k = omega arith in
    let n' : k * 8 / 8 ≡ k = omega arith in
    (
      m1,
      m2,
      rw (n, e1) refl,
      rw (n', e2) refl,
      h1.src_bytes,
      h2.dest_bytes
          ∙ ap (λ ys. contents dest ++ take (room dest) ys)
              (ap (λ zs. concat (map (to_pcm16 c) (samples 8 k j' zs)))
                  (h1.dest_bytes ∙ held_doubles c k mid j (contents src) nil fit)
                ∙ decoded c exact k j j' (contents src) l l' (omega (arith, length-contents src))),
    )
