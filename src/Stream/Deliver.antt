-- ===== src/Stream/Deliver.antt =====
-- What `hm_stream_run` of src/core/stream.c carries from the source to the sink.
use hiemal.Base.{
  ℕ, ◌≤◌, ◌≡◌, refl, ap, sym, ◌∙◌, true, false, ◌⊎◌, inl, inr, none, some, List, [], ◌∷◌, ◌++◌,
  length, ltb, Bytes, memcpy, slice, replicate, arith, append-nil, append_assoc, length-replicate,
}
use native.Mathlib.Decide.{dec_lt}
use hiemal.Format.{s16le, f32le, Signature, Floats, same_type}
use hiemal.Format.Convert.{same_type_iff, format_convert-narrows}
use hiemal.Stream.{Operations, Stream, done, adapt, available, round_plain, round, stream_run}

-- Operations under which the bytes that the source has produced, and those that the sink has consumed, can be
-- listed. The lists stand for the two ends of the stream: a count alone changes neither. A run of the source is
-- known to fill the area only up to its `stock`, and a run of the sink to take the area only up to its `room`; a
-- count is never above these.
pub record IsFaithful {W : Type 0} (o : Operations W) : Type 0 where
  pub produced : W → Bytes
  pub consumed : W → Bytes
  pub readable-produced : (w : W) → produced (o.bytes_readable w).1 ≡ produced w
  pub readable-consumed : (w : W) → consumed (o.bytes_readable w).1 ≡ consumed w
  pub writable-produced : (w : W) → produced (o.bytes_writable w).1 ≡ produced w
  pub writable-consumed : (w : W) → consumed (o.bytes_writable w).1 ≡ consumed w
  pub stock : W → ℕ
  pub room : W → ℕ
  pub readable-stock : (w : W) → (o.bytes_readable w).0 ≤ stock (o.bytes_readable w).1
  pub writable-stock : (w : W) → stock (o.bytes_writable w).1 ≡ stock w
  pub writable-room : (w : W) → (o.bytes_writable w).0 ≤ room (o.bytes_writable w).1
  pub source-room : (buf : Bytes) (n : ℕ) (w : W) → room (o.source_run buf n w).1 ≡ room w
  pub source-produced :
      (buf : Bytes) (n : ℕ) (w : W)
      → n ≤ length buf
      → n ≤ stock w
      → let r = o.source_run buf n w in produced r.1 ≡ produced w ++ slice r.0 0 n
  pub source-consumed :
      (buf : Bytes) (n : ℕ) (w : W) → consumed (o.source_run buf n w).1 ≡ consumed w
  pub sink-produced : (buf : Bytes) (n : ℕ) (w : W) → produced (o.sink_run buf n w) ≡ produced w
  pub sink-consumed :
      (buf : Bytes) (n : ℕ) (w : W)
      → n ≤ room w
      → consumed (o.sink_run buf n w) ≡ consumed w ++ slice buf 0 n

-- Whether the clock reaches `msec` at some reading
abbrev pub Late : (msec elapsed : ℕ) → List ℕ → Type 0
Late msec elapsed [] = msec ≤ elapsed
Late msec elapsed (t ∷ ts) = (msec ≤ elapsed) ⊎ Late msec t ts

module _ {W : Type 0} (c : Floats) (o : Operations W) (f : IsFaithful o) where
  -- The source has produced `out` since `w`, and the sink has consumed `into`.
  pub record Moved (w w' : W) (out into : Bytes) : Type 0 where
    pub produced : f.produced w' ≡ f.produced w ++ out
    pub consumed : f.consumed w' ≡ f.consumed w ++ into

  available-kept :
      (w : W)
      → (f.produced (available c o w).1 ≡ f.produced w)
        × (f.consumed (available c o w).1 ≡ f.consumed w)
  unfolding available
  available-kept w =
      let w1 = (o.bytes_readable w).1 in
      (
        f.writable-produced w1 ∙ f.readable-produced w,
        f.writable-consumed w1 ∙ f.readable-consumed w,
      )

  -- What a round moves is there, and there is room for it.
  available-le :
      (w : W)
      → ((available c o w).0 ≤ f.stock (available c o w).1)
        × ((available c o w).0 ≤ f.room (available c o w).1)
  unfolding available
  available-le w =
      let w1 = (o.bytes_readable w).1 in
      let stock = f.readable-stock w in
      let kept = f.writable-stock w1 in
      let room = f.writable-room w1 in (ground arith, ground arith)

  adapt-narrows :
      (from to : Signature) (buf tmp : Bytes) (n : ℕ)
      → from.sample_format ≡ f32le
      → to.sample_format ≡ s16le
      → adapt c o from to buf tmp n ≡ some (buf, tmp, 0)
  unfolding adapt memcpy
  adapt-narrows from to buf tmp n e e' =
      let h = format_convert-narrows c n buf from tmp to e e' in
      let test : ltb n 0 ≡ false = ground arith in
      let t : same_type from.sample_format to.sample_format ≡ false = rw (e, e') refl in
      rw (t, h.1, test, h.0) refl

  Moved-trans :
      {w v u : W} {a b a' b' : Bytes}
      → Moved w v a b
      → Moved v u a' b'
      → Moved w u (a ++ a') (b ++ b')
  Moved-trans {w = w} {a = a} {b = b} {a' = a'} {b' = b'} m n = record {
    produced = n.produced ∙ ap (λ x. x ++ a') m.produced ∙ append_assoc (f.produced w) a a';
    consumed = n.consumed ∙ ap (λ x. x ++ b') m.consumed ∙ append_assoc (f.consumed w) b b';
  }

  module _ (s : Stream) (plain : s.dsp ≡ none) where
    -- Equal formats: the sink is given what the source wrote.
    round-same :
        s.src.sample_format ≡ s.sink.sample_format
        → (w : W) → (w' : W) × (out : Bytes) × (round c o s w ≡ some w') × Moved w w' out out
    unfolding round round_plain adapt
    round-same e w =
        let (n, w1) = available c o w in
        let (buf, w2) = o.source_run (replicate n 0) n w1 in
        let k = available-kept w in
        let le = available-le w in
        let t : same_type s.src.sample_format s.sink.sample_format ≡ true =
          (same_type_iff s.src.sample_format s.sink.sample_format).1 e in
        (
          o.sink_run buf n w2,
          slice buf 0 n,
          rw (plain, t) refl,
          record {
            produced =
                f.sink-produced buf n w2
                ∙ f.source-produced (replicate n 0) n w1
                    (omega (arith, length-replicate {A = ℕ} n 0)) le.0
                ∙ ap (λ x. x ++ slice buf 0 n) k.0;
            consumed =
                f.sink-consumed buf n w2 (omega (arith, le.1, f.source-room (replicate n 0) n w1))
                ∙ ap (λ x. x ++ slice buf 0 n) (f.source-consumed (replicate n 0) n w1 ∙ k.1);
          },
        )

    -- From floats to 16-bit samples: the sink is given nothing.
    round-narrows :
        s.src.sample_format ≡ f32le
        → s.sink.sample_format ≡ s16le
        → (w : W) → (w' : W) × (out : Bytes) × (round c o s w ≡ some w') × Moved w w' out []
    unfolding round round_plain adapt
    round-narrows e e' w =
        let (n, w1) = available c o w in
        let (buf, w2) = o.source_run (replicate n 0) n w1 in
        let k = available-kept w in
        let le = available-le w in
        (
          o.sink_run buf 0 w2,
          slice buf 0 n,
          rw (plain, adapt-narrows s.src s.sink buf (replicate n 0) n e e') refl,
          record {
            produced =
                f.sink-produced buf 0 w2
                ∙ f.source-produced (replicate n 0) n w1
                    (omega (arith, length-replicate {A = ℕ} n 0)) le.0
                ∙ ap (λ x. x ++ slice buf 0 n) k.0;
            consumed =
                f.sink-consumed buf 0 w2 (omega arith)
                ∙ ap (λ x. x ++ []) (f.source-consumed (replicate n 0) n w1 ∙ k.1);
          },
        )

    -- The loop, from what each round does
    module _ (into : Bytes → Bytes) (into-nil : into [] ≡ [])
        (into-append : (a b : Bytes) → into (a ++ b) ≡ into a ++ into b)
        (step : (w : W)
          → (w' : W) × (out : Bytes) × (round c o s w ≡ some w') × Moved w w' out (into out)) where
      nothing : (w : W) → Moved w w [] (into [])
      nothing w = rw into-nil (record {
        produced = sym (append-nil (f.produced w));
        consumed = sym (append-nil (f.consumed w));
      })

      loop-done :
          (msec elapsed : ℕ) (ts : List ℕ) (w : W)
          → Late msec elapsed ts
          → (w' : W) × (out : Bytes) × (stream_run c o s msec elapsed ts w ≡ done w')
            × Moved w w' out (into out)
      unfolding stream_run
      loop-done msec elapsed [] w late =
          let test : ltb elapsed msec ≡ false = ground arith in (w, [], rw test refl, nothing w)
      loop-done msec elapsed (t ∷ ts) w late = elim (dec_lt elapsed msec) [
        | no ge ↦
            let test : ltb elapsed msec ≡ false = ground arith in (w, [], rw test refl, nothing w)
        | yes lt ↦
            let test : ltb elapsed msec ≡ true = ground arith in
            let (w1, a, e, m) = step w in
            let later : Late msec t ts = elim late [ inl ge ↦ absurd (omega arith) | inr l ↦ l ] in
            let (w2, b, e', m') = loop-done msec t ts w1 later in
            (w2, a ++ b, rw (test, e) e', rw (into-append a b) (Moved-trans m m'))
      ]

    -- With a source and a sink whose counts can be relied on, `hm_stream_run` with no filter and one sample format ends once the clock has reached `msec`, and the sink
    -- has then consumed the very bytes that the source has produced, in order.
    pub stream_run-delivers :
        (msec : ℕ) (ts : List ℕ) (w : W)
        → s.src.sample_format ≡ s.sink.sample_format
        → Late msec 0 ts
        → (w' : W) × (out : Bytes) × (stream_run c o s msec 0 ts w ≡ done w') × Moved w w' out out
    stream_run-delivers msec ts w e late =
        loop-done (λ x. x) refl (λ a b. refl) (round-same e) msec 0 ts w late

    -- With a source of floats and a sink of 16-bit samples it ends too, and the sink has consumed nothing,
    -- whatever the source has produced.
    pub stream_run-drops :
        (msec : ℕ) (ts : List ℕ) (w : W)
        → s.src.sample_format ≡ f32le
        → s.sink.sample_format ≡ s16le
        → Late msec 0 ts
        → (w' : W) × (out : Bytes) × (stream_run c o s msec 0 ts w ≡ done w') × Moved w w' out []
    stream_run-drops msec ts w e e' late =
        loop-done (λ x. []) refl (λ a b. refl) (round-narrows e e') msec 0 ts w late
