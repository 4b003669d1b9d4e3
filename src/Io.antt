-- ===== src/Io.antt =====
-- src/core/io.c: buffers filled from files and emptied into them. An open file is its bytes and the offset of
-- its descriptor; a `FILE` has a position of its own besides, since the C library reads ahead.
pub mod Files
pub mod Transfer
pub mod ReadAhead
pub mod RoundTrip
pub mod Tests
use hiemal.Base.{
  ℕ, zero, suc, ◌+◌, ◌-◌, ◌≡◌, Option, none, some, List, [], ◌∷◌, ◌++◌, length, take, drop, ltb,
  if◌then◌else◌, ◌>>=◌, Bytes, memcpy, slice, sub_u32, replicate, min,
}
use hiemal.Event.{Effect}
use hiemal.Buffer.{Buffer, ring, full, buffer_init_ext, buffer_set_state, buffer_n_read_bytes}
use hiemal.Buffer.Io.{Outcome, buffer_write, buffer_read}

pub record File : Type 0 where
  pub content : Bytes
  pub offset : ℕ

-- `FILE`: the offset of the descriptor behind it, and the position in the file of the next byte
pub record CFile : Type 0 where
  pub file : File
  pub position : ℕ

-- What the C library and the kernel leave open: the bytes of a new allocation, and how far a descriptor
-- has moved when a `FILE` stands at a position
pub record Platform : Type 0 where
  pub malloc : ℕ → Bytes
  pub read_ahead : Bytes → ℕ → ℕ
  pub length-malloc : (n : ℕ) → length (malloc n) ≡ n

-- What a call returns and leaves
pub record Transferred (F : Type 0) : Type 0 where
  pub code : ℕ
  pub file : F
  pub buf : Buffer
  pub effects : List Effect

-- The bytes that `read` stores from an offset on, and the file after a `write` of `xs` there
unfoldable pub read_at : Bytes → (at n : ℕ) → Bytes
read_at content at n = slice content at n

unfoldable pub write_at : Bytes → (at : ℕ) → Bytes → Bytes
write_at content at xs =
    take at (content ++ replicate at 0) ++ (xs ++ drop (at + length xs) content)

-- `bytes_available`, as the unsigned number that `n_bytes` is compared with
abbrev pub bytes_available : File → ℕ
bytes_available f = sub_u32 (length f.content) f.offset

abbrev pub at_most : (available n : ℕ) → ℕ
at_most available n = if ltb available n then available else n

module _ (p : Platform) where
  unfoldable pub src_fd_impl : ℕ → File → Buffer → Option (Transferred File)
  unfolding read_at
  src_fd_impl n_bytes f b =
      let n = at_most (bytes_available f) n_bytes in
      let got = read_at f.content f.offset n in
      buffer_write b (memcpy (p.malloc n) 0 got) n >>= λ o. some (record {
        code = n;
        file = record f { offset = f.offset + length got };
        buf = o.buf;
        effects = o.effects;
      })

  unfoldable pub sink_fd_impl : ℕ → Buffer → File → Option (Transferred File)
  unfolding write_at
  sink_fd_impl n_bytes b f =
      let n = at_most (buffer_n_read_bytes b) n_bytes in
      buffer_read b (some (p.malloc n)) n >>= λ o. o.memory >>= λ xs. some (record {
        code = n;
        file = record { content = write_at f.content f.offset xs; offset = f.offset + length xs };
        buf = o.buf;
        effects = o.effects;
      })

  -- The available bytes go by the descriptor, the bytes read by the position of the `FILE`.
  unfoldable pub src_file_impl : ℕ → CFile → Buffer → Option (Transferred CFile)
  unfolding read_at
  src_file_impl n_bytes f b =
      let n = at_most (bytes_available f.file) n_bytes in
      let got = read_at f.file.content f.position n in
      let at = f.position + length got in
      buffer_write b (memcpy (p.malloc n) 0 got) n >>= λ o. some (record {
        code = n;
        file = record {
          file = record { content = f.file.content; offset = p.read_ahead f.file.content at };
          position = at;
        };
        buf = o.buf;
        effects = o.effects;
      })

  unfoldable pub sink_file_impl : ℕ → Buffer → CFile → Option (Transferred CFile)
  unfolding write_at
  sink_file_impl n_bytes b f =
      let n = at_most (buffer_n_read_bytes b) n_bytes in
      buffer_read b (some (p.malloc n)) n >>= λ o. o.memory >>= λ xs.
      let content = write_at f.file.content f.position xs in
      let at = f.position + length xs in
      some (record {
        code = n;
        file = record {
          file = record { content = content; offset = p.read_ahead content at };
          position = at;
        };
        buf = o.buf;
        effects = o.effects;
      })

  -- The calls on plain memory: a ring over it, which is empty to be filled and full to be emptied. `junk` is
  -- what `buffer_init_ext` leaves uninitialised.
  unfoldable pub src_fd : File → ℕ → Bytes → (junk : ℕ) → Option (Transferred File)
  unfolding src_fd_impl buffer_init_ext
  src_fd f n_bytes area junk = src_fd_impl n_bytes f (buffer_init_ext n_bytes ring area junk)

  unfoldable pub sink_fd : File → ℕ → Bytes → (junk : ℕ) → Option (Transferred File)
  unfolding sink_fd_impl buffer_init_ext buffer_set_state
  sink_fd f n_bytes area junk =
      sink_fd_impl n_bytes (buffer_set_state (buffer_init_ext n_bytes ring area junk) full) f

  unfoldable pub src_file : CFile → ℕ → Bytes → (junk : ℕ) → Option (Transferred CFile)
  unfolding src_file_impl buffer_init_ext
  src_file f n_bytes area junk = src_file_impl n_bytes f (buffer_init_ext n_bytes ring area junk)

  unfoldable pub sink_file : CFile → ℕ → Bytes → (junk : ℕ) → Option (Transferred CFile)
  unfolding sink_file_impl buffer_init_ext buffer_set_state
  sink_file f n_bytes area junk =
      sink_file_impl n_bytes (buffer_set_state (buffer_init_ext n_bytes ring area junk) full) f
