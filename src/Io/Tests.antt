-- ===== src/Io/Tests.antt =====
-- Files of a few bytes, and the theorems of src/core/io.c on them.
use hiemal.Base.{
  tabulate, false, ℕ, ◌≡◌, refl, some, [], ◌∷◌, ◌++◌, take, min, arith, replicate, length,
  length-replicate,
}
use hiemal.Buffer.{Buffer, ring, normal, empty}
use hiemal.Buffer.Valid.{used, contents}
use hiemal.Buffer.Descriptors.{fd_set_init}
use hiemal.Io.{File, CFile, write_at, Platform, Transferred, src_fd_impl, sink_fd_impl}
use hiemal.Io.Transfer.{IsIdle, IsOpen}
use hiemal.Io.RoundTrip.{sink_fd_impl-src_fd_impl}

-- Memory that starts as zeros, and a C library that reads a whole file at once
abbrev platform : Platform
platform = record {
  malloc = λ n. replicate n 0;
  read_ahead = λ content at. length content;
  length-malloc = λ n. length-replicate {A = ℕ} n 0;
}

abbrev pub ring5 : Buffer
ring5 = record {
  mem = 1 ∷ 2 ∷ 3 ∷ 4 ∷ 5 ∷ [];
  buf_len_bytes = 5;
  read_ptr = 3;
  write_ptr = 1;
  type = ring;
  state = normal;
  ext_buf = false;
  fd_set = fd_set_init 0;
  fd_hold = false;
  locked = false;
  event_list = [];
}

abbrev pub empty5 : Buffer
empty5 = record ring5 { mem = replicate 5 0; read_ptr = 0; write_ptr = 0; state = empty }

pub ring5-IsIdle : IsIdle ring5
ring5-IsIdle = ground arith

pub empty5-IsIdle : IsIdle empty5
empty5-IsIdle = ground arith

abbrev file6 : File
file6 = record { content = 1 ∷ 2 ∷ 3 ∷ 4 ∷ 5 ∷ 6 ∷ []; offset = 1 }

file6-IsOpen : IsOpen file6
file6-IsOpen = record { inside = omega arith; small = omega arith }

written : length (write_at file6.content 1 (take (min 2 (used ring5)) (contents ring5))) ≡ 6
unfolding write_at tabulate
written = refl

sink_fd_impl-src_fd_impl_example :
    (t : Transferred File) × (u : Transferred File) × (sink_fd_impl platform 2 ring5 file6 ≡ some t)
    × (src_fd_impl platform t.code (record t.file { offset = 1 }) empty5 ≡ some u)
    × (u.code ≡ t.code)
    × (contents u.buf ≡ contents empty5 ++ (4 ∷ 5 ∷ []))
unfolding tabulate
sink_fd_impl-src_fd_impl_example =
    sink_fd_impl-src_fd_impl platform 2 file6 ring5-IsIdle empty5-IsIdle (omega arith)
      (omega (arith, written)) (omega arith)

-- A `FILE` of which one byte has been given, after the C library read it whole
abbrev cfile6 : CFile
cfile6 = record { file = record file6 { offset = 6 }; position = 1 }
