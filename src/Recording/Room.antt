-- ===== src/Recording/Room.antt =====
-- How many buffers a recording of src/core/recording.c has room for.
use hiemal.Base.{
  ℕ, suc, ◌+◌, ◌≤◌, ◌≡◌, refl, ap, ◌∙◌, true, false, some, List, [], ◌∷◌, map, length, set, ltb,
  leb, is_some, arith, length-set,
}
use native.Mathlib.Nat.{zero-add}
use native.Mathlib.Decide.{dec_lt}
use hiemal.Str.{Str}
use hiemal.Buffer.{Buffer}
use hiemal.Recording.{
  buflist_add_buffer, recording_init, recording_buffer_add, Session, add, put_buffer, step, run,
  session_of,
}

adds-fit :
    (bs : List Buffer) (s : Session)
    → length s.recording.buffers ≡ 10
    → s.recording.n_buffer ≤ 10
    → is_some (run (map add bs) s) ≡ leb (s.recording.n_buffer + length bs) 10
unfolding run step recording_buffer_add
adds-fit [] s room le = ground arith
adds-fit (b ∷ bs) s room le =
    let r = s.recording in
    elim (dec_lt r.n_buffer 10) [
      | yes lt ↦
          let guard : ltb r.n_buffer (length r.buffers) ≡ true = ground (arith, room) in
          let s1 : Session = record {
            recording = record r {
              buffers = set r.buffers r.n_buffer r.n_buffer;
              buflist = buflist_add_buffer r.buflist;
              n_buffer = suc r.n_buffer;
            };
            buffers = put_buffer s.buffers r.n_buffer (record { buf = b; r_id = some r.n_buffer });
          } in
          let e : is_some (run (map add bs) s1) ≡ leb (suc r.n_buffer + length bs) 10 =
            adds-fit bs s1 (length-set r.buffers r.n_buffer r.n_buffer ∙ room) lt in
          let sum : suc r.n_buffer + length bs ≡ r.n_buffer + suc (length bs) = omega arith in
          rw (recording_buffer_add, guard) (e ∙ ap (λ k. leb k 10) sum)
      | no ge ↦
          let guard : ltb r.n_buffer (length r.buffers) ≡ false = ground (arith, room) in
          rw (recording_buffer_add, guard) (ground arith)
    ]

-- Buffers added to a new recording all find room in its array just where they are at most ten: an eleventh is stored
-- past the array.
pub recording_buffer_add-room :
    (filename : Str) (junk : ℕ) (bs : List Buffer)
    → is_some (run (map add bs) (session_of filename junk)) ≡ leb (length bs) 10
unfolding recording_init
recording_buffer_add-room filename junk bs =
    adds-fit bs (session_of filename junk) refl (omega arith)
    ∙ ap (λ k. leb k 10) (zero-add (length bs))
