-- ===== src/Io/Transfer.antt =====
-- What src/core/io.c moves between a file and a ring.
use hiemal.Base.{
  ℕ, ◌+◌, ◌-◌, ◌^◌, ◌≤◌, ◌<◌, ◌≡◌, refl, ap, sym, ◌∙◌, false, some, ◌++◌, length, take, drop, Bytes,
  memcpy, arith, min, length-take,
}
use hiemal.Buffer.{Buffer, buffer_n_read_bytes}
use hiemal.Buffer.Io.{Outcome, buffer_write, buffer_read}
use hiemal.Buffer.Valid.{IsRing, used, contents, length-contents, buffer_n_read_bytes-eq}
use hiemal.Buffer.Write.{buffer_write-appends}
use hiemal.Buffer.Read.{buffer_read-takes}
use hiemal.Io.{
  File, Platform, Transferred, at_most, bytes_available, read_at, write_at, src_fd_impl,
  sink_fd_impl,
}
use hiemal.Base.Pieces.{memcpy_whole, take-take}
use hiemal.Io.Files.{length-read_at}

-- A ring that a transfer may use
pub record IsIdle (b : Buffer) : Type 0 where
  pub valid : IsRing b
  pub unlocked : b.locked ≡ false

-- A file of less than 2 GiB, with its offset inside it
pub record IsOpen (f : File) : Type 0 where
  pub inside : f.offset ≤ length f.content
  pub small : length f.content < 2 ^ 31

module _ (p : Platform) where
  -- The bytes that `src_fd_impl` asks for, and that the file has
  abbrev pub wanted : ℕ → File → ℕ
  wanted n f = min n (length f.content - f.offset)

  -- `k` bytes were read; the ring holds as many of them as it had room for.
  pub record IsFilled (f : File) (b : Buffer) (k : ℕ) (t : Transferred File) : Type 0 where
    pub code : t.code ≡ k
    pub file : t.file ≡ record f { offset = f.offset + k }
    pub ring : IsIdle t.buf
    pub bytes :
        contents t.buf ≡ contents b ++ read_at f.content f.offset (min k (b.buf_len_bytes - used b))

  src-step :
      (n k : ℕ) (f : File) (b : Buffer) (got : Bytes) (o : Outcome)
      → at_most (bytes_available f) n ≡ k
      → read_at f.content f.offset k ≡ got
      → memcpy (p.malloc k) 0 got ≡ got
      → length got ≡ k
      → buffer_write b got k ≡ some o
      → src_fd_impl p n f b
        ≡ some (record {
          code = k;
          file = record f { offset = f.offset + k };
          buf = o.buf;
          effects = o.effects;
        })
  unfolding src_fd_impl
  src-step n k f b got o a r m l e = rw (a, r, m, e, l) refl

  sink-step :
      (n k : ℕ) (f : File) (b : Buffer) (out : Bytes) (o : Outcome)
      → at_most (buffer_n_read_bytes b) n ≡ k
      → buffer_read b (some (p.malloc k)) k ≡ some o
      → o.memory ≡ some out
      → length out ≡ k
      → sink_fd_impl p n b f
        ≡ some (record {
          code = k;
          file = record { content = write_at f.content f.offset out; offset = f.offset + k };
          buf = o.buf;
          effects = o.effects;
        })
  unfolding sink_fd_impl
  sink-step n k f b out o a e m l = rw (a, e, m, l) refl

  -- For a file below 2 GiB with its offset inside it, an unlocked valid ring and a count below 2^31: `src_fd_impl`
  -- reads as many bytes as are asked for and the file has, moves the offset past them, and returns their number;
  -- the ring takes as many as it has room for, and the rest are lost.
  pub src_fd_impl-fills :
      (n : ℕ) (f : File) {b : Buffer}
      → IsOpen f
      → IsIdle b
      → n < 2 ^ 31
      → (t : Transferred File) × (src_fd_impl p n f b ≡ some t) × IsFilled f b (wanted n f) t
  unfolding read_at
  src_fd_impl-fills n f {b = b} v w small =
      let k : at_most (bytes_available f) n ≡ wanted n f = ground (arith, v.inside, v.small) in
      let got = read_at f.content f.offset (wanted n f) in
      let l : length got ≡ wanted n f =
        length-read_at f.content f.offset (wanted n f) (omega (arith, v.inside)) in
      let tmp : memcpy (p.malloc (wanted n f)) 0 got ≡ got =
        memcpy_whole (p.malloc (wanted n f)) got (p.length-malloc (wanted n f) ∙ sym l) in
      let (o, e, wrote, fx) =
        buffer_write-appends got (wanted n f) w.valid w.unlocked (omega (arith, l)) in
      (
        record {
          code = wanted n f;
          file = record f { offset = f.offset + wanted n f };
          buf = o.buf;
          effects = o.effects;
        },
        src-step n (wanted n f) f b got o k refl tmp l e,
        record {
          code = refl;
          file = refl;
          ring = record { valid = wrote.valid; unlocked = wrote.released };
          bytes =
              wrote.bytes
              ∙ ap (λ xs. contents b ++ xs)
                  (take-take (min (wanted n f) (b.buf_len_bytes - used b)) (wanted n f)
                    (drop f.offset f.content) (omega arith));
        },
      )

  -- `xs` is what was in the ring, written to the file.
  pub record IsDrained (f : File) (b : Buffer) (k : ℕ) (t : Transferred File) : Type 0 where
    pub code : t.code ≡ k
    pub content : t.file.content ≡ write_at f.content f.offset (take k (contents b))
    pub offset : t.file.offset ≡ f.offset + k
    pub ring : IsIdle t.buf
    pub left : contents t.buf ≡ drop k (contents b)

  -- `sink_fd_impl` takes as many bytes as are asked for and the ring holds, oldest first, writes them to the
  -- file at its offset, moves the offset past them, and returns their number.
  pub sink_fd_impl-drains :
      (n : ℕ) (f : File) {b : Buffer}
      → IsIdle b
      → (t : Transferred File) × (sink_fd_impl p n b f ≡ some t) × IsDrained f b (min n (used b)) t
  sink_fd_impl-drains n f {b = b} w =
      let m = min n (used b) in
      let k : at_most (buffer_n_read_bytes b) n ≡ m =
        ground (arith, buffer_n_read_bytes-eq w.valid) in
      let out = take m (contents b) in
      let l : length out ≡ m = omega (arith, length-take m (contents b), length-contents b) in
      let (o, e, took, fx) =
        buffer_read-takes (some (p.malloc m)) m w.valid w.unlocked
          (omega (arith, p.length-malloc m)) in
      let same : min m (used b) ≡ m = omega arith in
      let given : o.memory ≡ some out =
        took.given
        ∙ rw same (ap some (memcpy_whole (p.malloc m) out (p.length-malloc m ∙ sym l))) in
      (
        record {
          code = m;
          file = record { content = write_at f.content f.offset out; offset = f.offset + m };
          buf = o.buf;
          effects = o.effects;
        },
        sink-step n m f b out o k e given l,
        record {
          code = refl;
          content = refl;
          offset = refl;
          ring = record { valid = took.valid; unlocked = took.released };
          left = took.bytes ∙ ap (λ i. drop i (contents b)) same;
        },
      )
