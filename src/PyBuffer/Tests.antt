-- ===== src/PyBuffer/Tests.antt =====
-- The methods at the ring of Buffer/Tests, which holds one byte.
use hiemal.Base.{
  ◌≡◌, refl, Option, none, some, [], ◌∷◌, min, take, drop, replicate, length-replicate, Bytes,
}
use hiemal.Base.Int.{ℤ, pos, negsuc}
use hiemal.Buffer.Tests.{ring5, ring5-IsRing}
use hiemal.Buffer.Valid.{IsRing, used, contents}
use hiemal.PyBuffer.{number, bytes_from, PyOutcome, py_buffer_read, py_buffer_peek}
use hiemal.PyBuffer.Methods.{IsGranting, py_buffer_read-peek}

abbrev zeros : ℤ → Option Bytes
zeros (pos n) = some (replicate n 0)
zeros (negsuc n) = none

zeros-IsGranting : IsGranting zeros
zeros-IsGranting = record {
  grant = λ n. (replicate n 0, refl, length-replicate n 0);
  refuse = λ n. refl;
}

py_buffer_read-peek_example :
    (o : PyOutcome) × (py_buffer_read zeros ring5 (number (pos 3) ∷ []) ≡ some o)
    × (o.result
        ≡ bytes_from (some (take (min 3 (used ring5)) (contents ring5))) (pos (min 3 (used ring5))))
    × IsRing o.buf
    × (contents o.buf ≡ drop (min 3 (used ring5)) (contents ring5))
    × (py_buffer_peek zeros ring5 (number (pos 3) ∷ [])
        ≡ some (record { result = o.result; buf = ring5; effects = [] }))
py_buffer_read-peek_example = py_buffer_read-peek zeros zeros-IsGranting ring5-IsRing refl 3
