-- ===== src/Recording/Tests.antt =====
-- A recording of two rings of five bytes, with a stop and a start between the writes.
use hiemal.Base.{
  is_some, leb, length, map, replicate, ◌≡◌, refl, some, true, List, [], ◌∷◌, get_or, arith, ℕ,
}
use hiemal.Buffer.Tests.{ring5, ring5-IsRing}
use hiemal.Recording.{Session, SessionCall, add, write, start, stop, run, session_of}
use hiemal.Recording.Snapshots.{heard, recording-heard}
use hiemal.Recording.Room.{recording_buffer_add-room}

abbrev calls : List SessionCall
calls =
    add ring5
    ∷ write 0 (1 ∷ 2 ∷ []) 2
    ∷ add ring5
    ∷ write 1 (3 ∷ []) 1
    ∷ stop
    ∷ write 0 (4 ∷ []) 1
    ∷ start
    ∷ write 0 (5 ∷ 6 ∷ 7 ∷ 8 ∷ 9 ∷ []) 5
    ∷ []

recording-heard_example :
    (s : Session) × (run calls (session_of [] 0) ≡ some s)
    × ((k : ℕ) → get_or s.recording.buflist k [] ≡ heard k true calls)
recording-heard_example = recording-heard [] 0 calls (
  omega arith,
  ring5-IsRing,
  refl,
  (
    omega arith,
    omega arith,
    (
      omega arith,
      ring5-IsRing,
      refl,
      (omega arith, omega arith, (omega arith, omega arith, (omega arith, omega arith, tt))),
    ),
  ),
)

heard_test : heard 0 true calls ≡ (1 ∷ 2 ∷ []) ∷ (5 ∷ 6 ∷ 7 ∷ 8 ∷ 9 ∷ []) ∷ []
heard_test = refl

-- Eleven rings are one too many.
recording_buffer_add-room_example :
    is_some (run (map add (replicate 11 ring5)) (session_of [] 0))
    ≡ leb (length (replicate 11 ring5)) 10
recording_buffer_add-room_example = recording_buffer_add-room [] 0 (replicate 11 ring5)
