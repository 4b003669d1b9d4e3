-- ===== src/Dsp/Moves.antt =====
-- What the conversions of src/core/dsp.c read and write.
use hiemal.Base.{
  ℕ, zero, suc, ◌-◌, ◌*◌, ◌/◌, ◌≤◌, ◌≡◌, refl, ap, sym, ◌∙◌, some, List, [], ◌∷◌, ◌++◌, length,
  take, drop, Bytes, memcpy, arith, map, min, length-memcpy, append_assoc, append-nil,
}
use hiemal.Base.Pieces.{concat, take-nil, drop-drop, take-take_rest, take-min, drop-min}
use hiemal.Buffer.{Buffer}
use hiemal.Buffer.Valid.{used, contents, length-contents}
use hiemal.Buffer.Write.{buffer_write-appends}
use hiemal.Buffer.Read.{buffer_read-takes}
use hiemal.Io.Transfer.{IsIdle}
use hiemal.Dsp.Samples.{
  Moving, move_samples, converted, convert_impl, Samples, to_double, length-to_double,
  pcm16_to_double,
}

-- The samples of `xs`, each over the one before: where `xs` ends, old bytes stay.
unfoldable pub samples : (size rounds : ℕ) → Bytes → Bytes → List Bytes
samples size zero s xs = []
samples size (suc k) s xs =
    let s' = memcpy s 0 (take size xs) in s' ∷ samples size k s' (drop size xs)

-- The bytes for which a ring has room
abbrev pub room : Buffer → ℕ
room b = b.buf_len_bytes - used b

-- `m'` is `m` with the samples in `xs` moved, `out` being what they become.
pub record HasMoved (m m' : Moving) (left : Bytes) (out : Bytes) : Type 0 where
  pub src_idle : IsIdle m'.src
  pub dest_idle : IsIdle m'.dest
  pub src_bytes : contents m'.src ≡ left
  pub dest_bytes : contents m'.dest ≡ contents m.dest ++ take (room m.dest) out

module _ (f : Bytes → Bytes) (size out_size : ℕ)
    (length-f : (x : Bytes) → length (f x) ≡ out_size) where
  -- One round of the loop
  pub round :
      (m : Moving)
      → IsIdle m.src
      → IsIdle m.dest
      → size ≤ length m.sample
      → (m' : Moving) × ((k : ℕ)
          → move_samples f size out_size (suc k) m ≡ move_samples f size out_size k m')
        × (m'.sample ≡ memcpy m.sample 0 (take size (contents m.src)))
        × (room m'.dest ≡ room m.dest - min out_size (room m.dest))
        × HasMoved m m' (drop size (contents m.src)) (f m'.sample)
  unfolding move_samples
  round m s d fits =
      let (r, er, tr, _) = buffer_read-takes (some m.sample) size s.valid s.unlocked fits in
      let x = memcpy m.sample 0 (take size (contents m.src)) in
      let (w, ew, tw, _) =
        buffer_write-appends (f x) out_size d.valid d.unlocked (omega (arith, length-f x)) in
      let swap : min out_size (room m.dest) ≡ min (room m.dest) out_size = omega arith in
      let given : r.memory ≡ some x =
        tr.given
        ∙ ap (λ ys. some (memcpy m.sample 0 ys))
            (take-min size (contents m.src) (length-contents m.src)) in
      (
        record {
          sample = x;
          src = r.buf;
          dest = w.buf;
          effects = m.effects ++ r.effects ++ w.effects;
        },
        λ k. rw (er, given, ew) refl,
        refl,
        omega (arith, tw.kept.len, tw.filled),
        record {
          src_idle = record { valid = tr.valid; unlocked = tr.released };
          dest_idle = record { valid = tw.valid; unlocked = tw.released };
          src_bytes = tr.bytes ∙ drop-min size (contents m.src) (length-contents m.src);
          dest_bytes =
              tw.bytes
              ∙ rw swap
                  (ap (λ ys. contents m.dest ++ ys) (take-min (room m.dest) (f x) (length-f x)));
        },
      )

  -- The whole loop
  pub move_samples-HasMoved :
      (k : ℕ) (m : Moving)
      → IsIdle m.src
      → IsIdle m.dest
      → size ≤ length m.sample
      → (m' : Moving) × (move_samples f size out_size k m ≡ some m')
        × HasMoved m m'
            (drop (k * size) (contents m.src))
            (concat (map f (samples size k m.sample (contents m.src))))
  unfolding move_samples samples concat
  move_samples-HasMoved zero m s d fits = (
    m,
    refl,
    record {
      src_idle = s;
      dest_idle = d;
      src_bytes = let z : 0 * size ≡ 0 = omega arith in rw z refl;
      dest_bytes = sym (
          ap (λ ys. contents m.dest ++ ys) (take-nil (room m.dest)) ∙ append-nil (contents m.dest));
    },
  )
  move_samples-HasMoved (suc k) m s d fits =
      let (m1, e1, x, r, h1) = round m s d fits in
      let fits' : size ≤ length m1.sample =
        rw x (omega (arith, length-memcpy m.sample 0 (take size (contents m.src)))) in
      let (m2, e2, h2) = move_samples-HasMoved k m1 h1.src_idle h1.dest_idle fits' in
      (
        m2,
        e1 k ∙ e2,
        record {
          src_idle = h2.src_idle;
          dest_idle = h2.dest_idle;
          src_bytes =
              h2.src_bytes
              ∙ rw (h1.src_bytes, drop-drop (contents m.src) size (k * size))
                  (ap (λ n. drop n (contents m.src)) (omega arith));
          dest_bytes =
              h2.dest_bytes
              ∙ rw (h1.dest_bytes, r, h1.src_bytes, sym x)
                  (append_assoc (contents m.dest) (take (room m.dest) (f m1.sample)) _
                    ∙ ap (λ ys. contents m.dest ++ ys)
                        (take-take_rest (room m.dest) (f m1.sample) _ (length-f m1.sample)));
        },
      )

-- With one idle ring on each side and a variable of two bytes, `pcm16_to_double` returns. It makes a double
-- of each whole sample that it is asked for, in order, and writes them as far as there is room; it takes
-- as many bytes, or all that there are. Where the source ends, the bytes of the last sample, or at first
-- those that the variable happened to hold, are converted again.
pub pcm16_to_double-HasMoved :
    (c : Samples) (n_bytes : ℕ) (junk : Bytes) (src dest : Buffer)
    → IsIdle src
    → IsIdle dest
    → length junk ≡ 2
    → (m : Moving) × (pcm16_to_double c junk n_bytes (src ∷ []) (dest ∷ []) ≡ some (converted m))
      × HasMoved
          (record { sample = junk; src = src; dest = dest; effects = [] })
          m
          (drop (n_bytes / 2 * 2) (contents src))
          (concat (map (to_double c) (samples 2 (n_bytes / 2) junk (contents src))))
unfolding pcm16_to_double convert_impl
pcm16_to_double-HasMoved c n_bytes junk src dest is id_ l =
    let start : Moving = record { sample = junk; src = src; dest = dest; effects = [] } in
    let (m, e, h) =
      move_samples-HasMoved (to_double c) 2 8 (length-to_double c) (n_bytes / 2) start is id_
        (omega (arith, l)) in
    (m, rw e refl, h)
