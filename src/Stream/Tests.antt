-- ===== src/Stream/Tests.antt =====
-- The loop of a stream, from a source that holds its bytes to a sink that has room for five in all and loses what
-- it is given past them.
use hiemal.Base.{
  ℕ, ◌-◌, min, ◌≡◌, refl, inr, none, List, [], ◌∷◌, ◌++◌, length, Bytes, memcpy, slice, take, drop,
  arith,
}
use hiemal.Format.{format_default}
use hiemal.Format.Tests.{padding, floats}
use hiemal.Stream.{Operations, Stream, done, stream_run}
use hiemal.Stream.Deliver.{IsFaithful, Moved, stream_run-delivers}

record Ends : Type 0 where
  input : Bytes
  output : Bytes
  given : Bytes

abbrev ends : Operations Ends
ends = record {
  bytes_readable = λ w. (length w.input, w);
  bytes_writable = λ w. (5 - length w.given, w);
  source_run = λ buf n w.
      let x = memcpy buf 0 (take n w.input) in
      (x, record w { input = drop n w.input; output = w.output ++ slice x 0 n });
  dsp_run = λ buf tmp n w. (buf, tmp, w);
  sink_run = λ buf n w. record w { given = w.given ++ slice buf 0 (min n (5 - length w.given)) };
  realloc = λ m n. take n m;
}

ends-IsFaithful : IsFaithful ends
ends-IsFaithful = record {
  produced = λ w. w.output;
  consumed = λ w. w.given;
  readable-produced = λ w. refl;
  readable-consumed = λ w. refl;
  writable-produced = λ w. refl;
  writable-consumed = λ w. refl;
  stock = λ w. length w.input;
  room = λ w. 5 - length w.given;
  readable-stock = λ w. omega arith;
  writable-stock = λ w. refl;
  writable-room = λ w. omega arith;
  source-room = λ buf n w. refl;
  source-produced = λ buf n w lt le. refl;
  source-consumed = λ buf n w. refl;
  sink-produced = λ buf n w. refl;
  sink-consumed =
      λ buf n w le. let all : min n (5 - length w.given) ≡ n = omega arith in rw all refl;
}

abbrev start : Ends
start = record { input = 1 ∷ 2 ∷ 3 ∷ 4 ∷ 5 ∷ 6 ∷ []; output = []; given = [] }

abbrev plain : Stream
plain = record { src = format_default; dsp = none; sink = format_default }

abbrev readings : List ℕ
readings = 1 ∷ 3 ∷ []

stream_run-delivers_example :
    (w : Ends) × (out : Bytes) × (stream_run padding ends plain 2 0 readings start ≡ done w)
    × Moved padding ends ends-IsFaithful start w out out
stream_run-delivers_example =
    stream_run-delivers padding ends ends-IsFaithful plain refl 2 readings start refl
      (inr (inr (omega arith)))

abbrev narrowing : Stream
narrowing = record plain { src = floats }
