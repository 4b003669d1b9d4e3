-- ===== src/Str/CopyBack.antt =====
-- A copy of an array of strings has the strings of the array, and clearing it gives back all that it allocated.
use hiemal.Base.{
  ℕ, zero, suc, ◌+◌, ◌≤◌, ◌≡◌, ◌≢◌, refl, ap, sym, ◌∙◌, none, some, List, [], ◌∷◌, ◌++◌, length,
  set, replicate, ltb, ◌==◌, true, false, arith, append_assoc, length-append,
}
use native.Mathlib.Decide.{ℕ_discrete}
use hiemal.Str.{Str}
use hiemal.Str.Copy.{
  StrHeap, put, strings_at, str_arr_copy_clear, copy_strings, str_arr_copy, str_arr_copy_m,
}

-- Addresses that `calloc` may return: of nothing that is allocated, and different
pub record AreNew (fresh : ℕ → ℕ) (h : StrHeap) : Type 0 where
  pub live : (i : ℕ) → fresh i ≢ 0
  pub free : (i : ℕ) → h (fresh i) ≡ none
  pub distinct : (i j : ℕ) → fresh i ≡ fresh j → i ≡ j

set-here :
    (pre rest : List ℕ) (x v : ℕ) → set (pre ++ (x ∷ rest)) (length pre) v ≡ pre ++ (v ∷ rest)
set-here [] rest x v = refl
set-here (p ∷ pre) rest x v = ap (λ l. p ∷ l) (set-here pre rest x v)

module _ (fresh : ℕ → ℕ) where
  addresses : (rounds i : ℕ) → List ℕ
  addresses zero i = []
  addresses (suc k) i = fresh i ∷ addresses k (suc i)

  filled : List Str → (i : ℕ) → StrHeap → StrHeap
  filled [] i h = h
  filled (s ∷ src) i h = filled src (suc i) (put h (fresh i) (some s))

  copy_strings-fills :
      (src : List Str) (i : ℕ) (h : StrHeap) (pre rest : List ℕ)
      → i ≡ length pre
      → copy_strings fresh src i h (pre ++ (replicate (length src) 0 ++ rest))
        ≡ some (filled src i h, pre ++ (addresses (length src) i ++ rest))
  unfolding copy_strings addresses filled
  copy_strings-fills [] i h pre rest e = refl
  copy_strings-fills (s ∷ src) i h pre rest e =
      let more = replicate (length src) 0 ++ rest in
      let h1 = put h (fresh i) (some s) in
      let guard : ltb i (length (pre ++ (0 ∷ more))) ≡ true =
        ground (arith, length-append pre (0 ∷ more), e) in
      let stored : set (pre ++ (0 ∷ more)) i (fresh i) ≡ pre ++ (fresh i ∷ more) =
        ap (λ k. set (pre ++ (0 ∷ more)) k (fresh i)) e ∙ set-here pre more 0 (fresh i) in
      let last : suc i ≡ length (pre ++ (fresh i ∷ [])) =
        omega (arith, e, length-append pre (fresh i ∷ [])) in
      rw (guard, stored)
        (ap (copy_strings fresh src (suc i) h1) (sym (append_assoc pre (fresh i ∷ []) more))
          ∙ copy_strings-fills src (suc i) h1 (pre ++ (fresh i ∷ [])) rest last
          ∙ ap (λ l. some (filled src (suc i) h1, l))
              (append_assoc pre (fresh i ∷ []) (addresses (length src) (suc i) ++ rest)))

  -- What the copy does not write stays as it was.
  filled-other :
      (src : List Str) (i : ℕ) (h : StrHeap) (p : ℕ)
      → ((j : ℕ) → i ≤ j → fresh j ≢ p)
      → filled src i h p ≡ h p
  unfolding filled
  filled-other [] i h p ne = refl
  filled-other (s ∷ src) i h p ne =
      filled-other src (suc i) (put h (fresh i) (some s)) p (λ j le. ne j (omega arith))
      ∙ ground (arith, ne i (omega arith))

  filled-same :
      (src : List Str) (i : ℕ) (h g : StrHeap) (p : ℕ)
      → h p ≡ g p
      → filled src i h p ≡ filled src i g p
  unfolding filled
  filled-same [] i h g p e = e
  filled-same (s ∷ src) i h g p e =
      filled-same src (suc i) (put h (fresh i) (some s)) (put g (fresh i) (some s)) p
        (ground (arith, e))

  module _ (live : (i : ℕ) → fresh i ≢ 0) (distinct : (i j : ℕ) → fresh i ≡ fresh j → i ≡ j) where
    -- The string for the index `i` is at its address.
    filled-here :
        (s : Str) (src : List Str) (i : ℕ) (h : StrHeap) → filled (s ∷ src) i h (fresh i) ≡ some s
    unfolding filled
    filled-here s src i h =
        filled-other src (suc i) (put h (fresh i) (some s)) (fresh i)
          (λ j le e. omega (arith, distinct j i e))
        ∙ ground arith

    filled-elsewhere :
        (s : Str) (src : List Str) (i : ℕ) (h : StrHeap) (p : ℕ)
        → p ≢ fresh i
        → filled (s ∷ src) i h p ≡ filled src (suc i) h p
    unfolding filled
    filled-elsewhere s src i h p ne =
        filled-same src (suc i) (put h (fresh i) (some s)) h p (ground (arith, ne))

    strings_at-addresses :
        (src : List Str) (i : ℕ) (h g : StrHeap) (rest : List ℕ)
        → ((p : ℕ) → g p ≡ filled src i h p)
        → strings_at g (addresses (length src) i ++ (0 ∷ rest)) ≡ some src
    unfolding strings_at addresses filled
    strings_at-addresses [] i h g rest same = refl
    strings_at-addresses (s ∷ src) i h g rest same =
        let live' : (fresh i == 0) ≡ false = ground (arith, live i) in
        rw
          (
            live',
            same (fresh i) ∙ filled-here s src i h,
            strings_at-addresses src (suc i) (put h (fresh i) (some s)) g rest same,
          )
          refl

    clear-addresses :
        (src : List Str) (i : ℕ) (h g : StrHeap) (rest : List ℕ)
        → ((j : ℕ) → h (fresh j) ≡ none)
        → ((p : ℕ) → g p ≡ filled src i h p)
        → (h' : StrHeap) × (str_arr_copy_clear g (addresses (length src) i ++ (0 ∷ rest)) ≡ some h')
          × ((p : ℕ) → h' p ≡ h p)
    unfolding str_arr_copy_clear addresses filled
    clear-addresses [] i h g rest free same = (g, refl, same)
    clear-addresses (s ∷ src) i h g rest free same =
        let live' : (fresh i == 0) ≡ false = ground (arith, live i) in
        let same' : (p : ℕ) → put g (fresh i) none p ≡ filled src (suc i) h p = λ p.
          elim (ℕ_discrete p (fresh i)) [
            | yes e ↦
                let here : put g (fresh i) none p ≡ none = ground (arith, e) in
                here
                ∙ sym (free i)
                ∙ sym (
                    filled-other src (suc i) h (fresh i)
                      (λ j le e'. omega (arith, distinct j i e')))
                ∙ ap (filled src (suc i) h) (sym e)
            | no ne ↦
                let there : put g (fresh i) none p ≡ g p = ground (arith, ne) in
                there ∙ same p ∙ filled-elsewhere s src i h p ne
          ] in
        let (h', e, back) = clear-addresses src (suc i) h (put g (fresh i) none) rest free same' in
        (h', rw (live', same (fresh i) ∙ filled-here s src i h) e, back)

replicate-suc : (n : ℕ) → replicate {A = ℕ} (n + 1) 0 ≡ replicate n 0 ++ (0 ∷ [])
replicate-suc zero = let e : 0 + 1 ≡ 1 = omega arith in ap (λ k. replicate {A = ℕ} k 0) e
replicate-suc (suc n) =
    let e : suc n + 1 ≡ suc (n + 1) = omega arith in
    ap (λ k. replicate {A = ℕ} k 0) e ∙ ap (λ l. 0 ∷ l) (replicate-suc n)

-- `str_arr_copy_m` of an array of strings, with the memory granted, makes an array of the same strings, and
-- `str_arr_copy_clear` of that array frees allocated strings only and leaves what was allocated before the copy.
pub str_arr_copy_m-clear :
    (fresh : ℕ → ℕ) (src : List Str) (h : StrHeap)
    → AreNew fresh h
    → (h1 : StrHeap) × (dest : List ℕ) × (h2 : StrHeap) × (str_arr_copy_m fresh src h
        ≡ some (h1, dest))
      × (strings_at h1 dest ≡ some src)
      × (str_arr_copy_clear h1 dest ≡ some h2)
      × ((p : ℕ) → h2 p ≡ h p)
unfolding str_arr_copy_m str_arr_copy
str_arr_copy_m-clear fresh src h new =
    let h1 = filled fresh src 0 h in
    let dest = addresses fresh (length src) 0 ++ (0 ∷ []) in
    let (h2, e, back) =
      clear-addresses fresh new.live new.distinct src 0 h h1 [] new.free (λ p. refl) in
    (
      h1,
      dest,
      h2,
      ap (copy_strings fresh src 0 h) (replicate-suc (length src))
          ∙ copy_strings-fills fresh src 0 h [] (0 ∷ []) refl,
      strings_at-addresses fresh new.live new.distinct src 0 h h1 [] (λ p. refl),
      e,
      back,
    )
