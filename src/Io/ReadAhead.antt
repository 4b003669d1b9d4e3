-- ===== src/Io/ReadAhead.antt =====
-- `src_file` of src/core/io.c on a file that the C library has read ahead of it.
use hiemal.Base.{
  ℕ, ◌+◌, ◌-◌, ◌^◌, ◌<◌, ◌≡◌, refl, ap, ◌∙◌, some, [], ◌++◌, length, take, memcpy, arith, min,
  append-nil,
}
use hiemal.Buffer.{Buffer}
use hiemal.Buffer.Io.{Outcome, buffer_write}
use hiemal.Buffer.Valid.{contents, used}
use hiemal.Buffer.Write.{buffer_write-appends}
use hiemal.Io.{CFile, Platform, Transferred, at_most, bytes_available, read_at, src_file_impl}
use hiemal.Io.Transfer.{IsIdle}

module _ (p : Platform) where
  stall-step :
      (n : ℕ) (f : CFile) (b : Buffer) (o : Outcome)
      → at_most (bytes_available f.file) n ≡ 0
      → buffer_write b (memcpy (p.malloc 0) 0 []) 0 ≡ some o
      → src_file_impl p n f b
        ≡ some (record {
          code = 0;
          file = record {
            file = record {
              content = f.file.content;
              offset = p.read_ahead f.file.content (f.position + 0);
            };
            position = f.position + 0;
          };
          buf = o.buf;
          effects = o.effects;
        })
  unfolding src_file_impl read_at
  stall-step n f b o a e = rw (a, e) refl

  -- Once the descriptor behind a `FILE` stands at the end of a file below 2 GiB, `src_file_impl` into an unlocked
  -- valid ring returns 0, leaves the `FILE` at its position and adds nothing to the ring, wherever in the file that
  -- position is.
  pub src_file_impl-stalls :
      (n : ℕ) (f : CFile) {b : Buffer}
      → IsIdle b
      → f.file.offset ≡ length f.file.content
      → length f.file.content < 2 ^ 31
      → (t : Transferred CFile) × (src_file_impl p n f b ≡ some t)
        × (t.code ≡ 0)
        × (t.file.position ≡ f.position)
        × (contents t.buf ≡ contents b)
  src_file_impl-stalls n f {b = b} w at_end small =
      let a : at_most (bytes_available f.file) n ≡ 0 = ground (arith, at_end) in
      let z : min 0 (b.buf_len_bytes - used b) ≡ 0 = omega arith in
      let (o, e, wrote, fx) =
        buffer_write-appends (memcpy (p.malloc 0) 0 []) 0 w.valid w.unlocked (omega arith) in
      (
        record {
          code = 0;
          file = record {
            file = record {
              content = f.file.content;
              offset = p.read_ahead f.file.content (f.position + 0);
            };
            position = f.position + 0;
          };
          buf = o.buf;
          effects = o.effects;
        },
        stall-step n f b o a e,
        refl,
        omega arith,
        wrote.bytes
            ∙ ap (λ k. contents b ++ take k (memcpy (p.malloc 0) 0 [])) z
            ∙ append-nil (contents b),
      )
