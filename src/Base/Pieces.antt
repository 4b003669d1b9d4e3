-- ===== src/Base/Pieces.antt =====
-- Bytes in pieces.
use Prim.Native.Nat.{ℕ, zero, suc, ◌+◌, ◌-◌, ◌≤◌, min}
use mathlib.Core.Path.{◌≡◌, refl, ap, sym, ◌∙◌}
use mathlib.Core.List.{List, [], ◌∷◌, ◌++◌, append-nil}
use native.Mathlib.Omega.{arith}
use native.Mathlib.Decide.{dec_le}
use hiemal.Base.Tests.{ltb, if◌then◌else◌}
use hiemal.Base.Lists.{length, take, drop, list_ext}
use hiemal.Base.Memory.{Bytes, memcpy, slice, length-memcpy, byte_at-memcpy_inside}

pub drop-append : (xs ys : Bytes) (n : ℕ) → length xs ≡ n → drop n (xs ++ ys) ≡ ys
drop-append [] ys zero e = refl
drop-append [] ys (suc n) e = absurd (omega arith)
drop-append (x ∷ xs) ys zero e = absurd (omega arith)
drop-append (x ∷ xs) ys (suc n) e = drop-append xs ys n (omega arith)

pub take-take : (m n : ℕ) (xs : Bytes) → m ≤ n → take m (take n xs) ≡ take m xs
take-take zero n xs le = refl
take-take (suc m) zero xs le = elim le [ ]
take-take (suc m) (suc n) [] le = refl
take-take (suc m) (suc n) (x ∷ xs) le = ap (λ zs. x ∷ zs) (take-take m n xs (omega arith))

pub take-all : (n : ℕ) (xs : Bytes) → length xs ≤ n → take n xs ≡ xs
take-all zero [] le = refl
take-all zero (x ∷ xs) le = elim le [ ]
take-all (suc n) [] le = refl
take-all (suc n) (x ∷ xs) le = ap (λ zs. x ∷ zs) (take-all n xs (omega arith))

-- A copy over a whole area
pub memcpy_whole : (m xs : Bytes) → length m ≡ length xs → memcpy m 0 xs ≡ xs
memcpy_whole m xs e = list_ext 0 (memcpy m 0 xs) xs (length-memcpy m 0 xs ∙ e) (λ i lt.
    byte_at-memcpy_inside m 0 xs i i (omega (arith, e)) (omega (arith, length-memcpy m 0 xs, e))
      (omega arith))

pub take-min : {m : ℕ} (n : ℕ) (xs : Bytes) → length xs ≡ m → take (min n m) xs ≡ take n xs
take-min {m} n xs l = elim (dec_le n m) [
  | yes le ↦ let e : min n m ≡ n = omega arith in rw e refl
  | no gt ↦
      let e : min n m ≡ m = omega arith in
      rw e (take-all m xs (omega arith) ∙ sym (take-all n xs (omega arith)))
]

pub drop-all : (n : ℕ) (xs : Bytes) → length xs ≤ n → drop n xs ≡ []
drop-all zero [] le = refl
drop-all zero (x ∷ xs) le = elim le [ ]
drop-all (suc n) [] le = refl
drop-all (suc n) (x ∷ xs) le = drop-all n xs (omega arith)

pub drop-min : {m : ℕ} (n : ℕ) (xs : Bytes) → length xs ≡ m → drop (min n m) xs ≡ drop n xs
drop-min {m} n xs l = elim (dec_le n m) [
  | yes le ↦ let e : min n m ≡ n = omega arith in rw e refl
  | no gt ↦
      let e : min n m ≡ m = omega arith in
      rw e (drop-all m xs (omega arith) ∙ sym (drop-all n xs (omega arith)))
]

unfoldable pub concat : List Bytes → Bytes
concat [] = []
concat (x ∷ xs) = x ++ concat xs

unfoldable pub total : List ℕ → ℕ
total [] = 0
total (x ∷ xs) = x + total xs

pub take-nil : (n : ℕ) → take {A = ℕ} n [] ≡ []
take-nil zero = refl
take-nil (suc n) = refl

pub drop-nil : (n : ℕ) → drop {A = ℕ} n [] ≡ []
drop-nil zero = refl
drop-nil (suc n) = refl

pub take-split : (xs : Bytes) (k n : ℕ) → k ≤ n → take n xs ≡ take k xs ++ take (n - k) (drop k xs)
take-split xs zero n le = let e : n - 0 ≡ n = omega arith in rw e refl
take-split [] (suc k) n le = take-nil n ∙ sym (take-nil (n - suc k))
take-split (x ∷ xs) (suc k) zero le = elim le [ ]
take-split (x ∷ xs) (suc k) (suc n) le =
    let e : suc n - suc k ≡ n - k = omega arith in
    rw e (ap (λ ys. x ∷ ys) (take-split xs k n (omega arith)))

pub drop-drop : (xs : Bytes) (a b : ℕ) → drop b (drop a xs) ≡ drop (a + b) xs
drop-drop xs zero b = let e : 0 + b ≡ b = omega arith in rw e refl
drop-drop [] (suc a) b = drop-nil b ∙ sym (drop-nil (suc a + b))
drop-drop (x ∷ xs) (suc a) b =
    let e : suc a + b ≡ suc (a + b) = omega arith in rw e (drop-drop xs a b)

pub slice-split :
    (m : Bytes) (at k n : ℕ) → k ≤ n → slice m at k ++ slice m (at + k) (n - k) ≡ slice m at n
slice-split m at k n le =
    sym (
      take-split (drop at m) k n le ∙ ap (λ ys. slice m at k ++ take (n - k) ys) (drop-drop m at k))

pub take-append_over :
    (xs ys : Bytes) (n : ℕ) → length xs ≤ n → take n (xs ++ ys) ≡ xs ++ take (n - length xs) ys
take-append_over [] ys n le = let e : n - 0 ≡ n = omega arith in rw e refl
take-append_over (x ∷ xs) ys zero le = elim le [ ]
take-append_over (x ∷ xs) ys (suc n) le =
    let e : suc n - suc (length xs) ≡ n - length xs = omega arith in
    rw e (ap (λ zs. x ∷ zs) (take-append_over xs ys n (omega arith)))

pub take-append_under : (xs ys : Bytes) (n : ℕ) → n ≤ length xs → take n (xs ++ ys) ≡ take n xs
take-append_under xs ys zero le = refl
take-append_under [] ys (suc n) le = elim le [ ]
take-append_under (x ∷ xs) ys (suc n) le =
    ap (λ zs. x ∷ zs) (take-append_under xs ys n (omega arith))

-- A piece taken first, whole or as far as is asked for
pub take-piece :
    (p ys : Bytes) (n k : ℕ)
    → k ≡ (if ltb n (length p) then n else length p)
    → take k p ++ take (n - k) ys ≡ take n (p ++ ys)
take-piece p ys n k e = elim (dec_le (length p) n) [
  | yes le ↦
      let e' : k ≡ length p = ground arith in
      rw e' (rw (take-all (length p) p (omega arith)) (sym (take-append_over p ys n le)))
  | no gt ↦
      let e' : k ≡ n = ground arith in
      let z : n - n ≡ 0 = omega arith in
      rw (e', z) (append-nil (take n p) ∙ sym (take-append_under p ys n (omega arith)))
]

pub take-take_rest :
    {m : ℕ} (n : ℕ) (p ys : Bytes)
    → length p ≡ m
    → take n p ++ take (n - min m n) ys ≡ take n (p ++ ys)
take-take_rest {m} n p ys l =
    let e : min m n ≡ min n m = omega arith in
    rw (e, sym (take-min n p l)) (take-piece p ys n (min n m) (ground arith))
