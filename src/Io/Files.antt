-- ===== src/Io/Files.antt =====
-- Reading back what was written to a file, and copies of whole areas.
use hiemal.Base.{
  ℕ, ◌+◌, ◌≤◌, ◌≡◌, ap, ◌∙◌, ◌++◌, length, take, drop, Bytes, arith, replicate, length-append,
  length-take, length-drop, length-replicate, take-append,
}
use hiemal.Base.Pieces.{drop-append}
use hiemal.Io.{read_at, write_at}

pub length-read_at :
    (content : Bytes) (at n : ℕ) → at + n ≤ length content → length (read_at content at n) ≡ n
unfolding read_at
length-read_at content at n le =
    omega (arith, length-take n (drop at content), length-drop at content)

-- What is written can be read back.
pub read_at-write_at :
    (content : Bytes) (at : ℕ) (xs : Bytes) → read_at (write_at content at xs) at (length xs) ≡ xs
unfolding read_at write_at
read_at-write_at content at xs =
    let front = take at (content ++ replicate at 0) in
    let l : length front ≡ at = omega (
      arith,
      length-take at (content ++ replicate at 0),
      length-append content (replicate at 0),
      length-replicate {A = ℕ} at 0,
    ) in
    ap (take (length xs)) (drop-append front (xs ++ drop (at + length xs) content) at l)
    ∙ take-append xs (drop (at + length xs) content)

pub length-write_at :
    (content : Bytes) (at : ℕ) (xs : Bytes) → at + length xs ≤ length (write_at content at xs)
unfolding write_at
length-write_at content at xs = omega (
  arith,
  length-take at (content ++ replicate at 0),
  length-append content (replicate at 0),
  length-replicate {A = ℕ} at 0,
  length-append (take at (content ++ replicate at 0)) (xs ++ drop (at + length xs) content),
  length-append xs (drop (at + length xs) content),
)
