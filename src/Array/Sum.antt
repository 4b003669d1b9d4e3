-- ===== src/Array/Sum.antt =====
-- `u64sum` of src/core/math.c.
use hiemal.Base.{ℕ, ◌+◌, ◌%◌, ◌^◌, ◌<◌, ◌≡◌, ◌∙◌, List, [], ◌∷◌, arith}
use hiemal.Array.{u64sum_from, u64sum}

abbrev pub sum : List ℕ → ℕ
sum [] = 0
sum (x ∷ xs) = x + sum xs

u64sum_from-sum :
    (res : ℕ) (xs : List ℕ) → res < 2 ^ 64 → u64sum_from res xs ≡ (res + sum xs) % 2 ^ 64
unfolding u64sum_from
u64sum_from-sum res [] lt = omega arith
u64sum_from-sum res (x ∷ xs) lt =
    u64sum_from-sum ((res + x) % 2 ^ 64) xs (omega arith) ∙ omega arith

-- `u64sum` is the sum, modulo 2^64.
pub u64sum-sum : (xs : List ℕ) → u64sum xs ≡ sum xs % 2 ^ 64
unfolding u64sum
u64sum-sum xs = u64sum_from-sum 0 xs (omega arith) ∙ omega arith
