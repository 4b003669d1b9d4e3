-- ===== src/Io/RoundTrip.antt =====
-- A ring emptied into a file and another filled from it, by src/core/io.c.
use hiemal.Base.{
  ℕ, ◌-◌, ◌^◌, ◌≤◌, ◌<◌, ◌≡◌, ap, sym, ◌∙◌, some, ◌++◌, length, take, arith, min, length-take,
}
use hiemal.Buffer.{Buffer}
use hiemal.Buffer.Valid.{used, contents, length-contents}
use hiemal.Io.{File, Platform, Transferred, src_fd_impl, sink_fd_impl, read_at, write_at}
use hiemal.Io.Files.{read_at-write_at, length-write_at}
use hiemal.Io.Transfer.{IsIdle, IsOpen, wanted, src_fd_impl-fills, sink_fd_impl-drains}

-- For unlocked valid rings, a count below 2^31 and a file that stays below 2 GiB: the bytes that `sink_fd_impl`
-- takes out of one ring and writes to the file, as many as are asked for and held, `src_fd_impl` reads back from the
-- same place into the other, behind what that one holds, if it has room for them.
pub sink_fd_impl-src_fd_impl :
    (p : Platform) (n : ℕ) (f : File) {b c : Buffer}
    → IsIdle b
    → IsIdle c
    → n < 2 ^ 31
    → length (write_at f.content f.offset (take (min n (used b)) (contents b))) < 2 ^ 31
    → min n (used b) ≤ c.buf_len_bytes - used c
    → (t : Transferred File) × (u : Transferred File) × (sink_fd_impl p n b f ≡ some t)
      × (src_fd_impl p t.code (record t.file { offset = f.offset }) c ≡ some u)
      × (u.code ≡ t.code)
      × (contents u.buf ≡ contents c ++ take (min n (used b)) (contents b))
sink_fd_impl-src_fd_impl p n f {b = b} {c = c} v w lt small room =
    let (t, e, drained) = sink_fd_impl-drains p n f v in
    let k = min n (used b) in
    let out = take k (contents b) in
    let back : File = record t.file { offset = f.offset } in
    let l : length out ≡ k = omega (arith, length-take k (contents b), length-contents b) in
    let size : length t.file.content ≡ length (write_at f.content f.offset out) =
      ap length drained.content in
    let open_file : IsOpen back = record {
      inside = omega (arith, size, length-write_at f.content f.offset out);
      small = omega (arith, size, small);
    } in
    let (u, e', filled) =
      src_fd_impl-fills p t.code back open_file w (omega (arith, drained.code)) in
    let all : wanted p t.code back ≡ k =
      omega (arith, drained.code, size, length-write_at f.content f.offset out, l) in
    let all' : min (wanted p t.code back) (c.buf_len_bytes - used c) ≡ length out =
      omega (arith, all, l, room) in
    (
      t,
      u,
      e,
      e',
      filled.code ∙ all ∙ sym drained.code,
      filled.bytes
          ∙ ap (λ xs. contents c ++ xs)
              (ap (read_at t.file.content f.offset) all'
                ∙ ap (λ content. read_at content f.offset (length out)) drained.content
                ∙ read_at-write_at f.content f.offset out),
    )
