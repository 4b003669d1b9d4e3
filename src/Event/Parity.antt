-- ===== src/Event/Parity.antt =====
-- Which events `hm_poll_fd_list` of src/core/event_unix.c looks at.
use hiemal.Base.{
  ℕ, zero, suc, ◌+◌, ◌%◌, ◌≡◌, refl, ap, ◌∙◌, some, List, [], ◌∷◌, ◌++◌, map, length, append-nil,
  Bool-cases, inl, inr, arith, if◌then◌else◌, ◌>>=◌,
}
use hiemal.Base.Int.{ℤ, pos}
use hiemal.Event.{ObjType, fd}
use hiemal.Event.Poll.{
  is_zero, collect_fds, poll_again, leave, scan_fds, poll_fds, poll_fd_list, poll_fd,
}

abbrev pub on_fds : List ℕ → List (ObjType × ℕ)
on_fds = map (λ n. (fd, n))

-- Even descriptors alone
abbrev pub AreEven : List ℕ → Type 0
AreEven [] = Unit {0}
AreEven (n ∷ fds) = (n % 2 ≡ 0) × AreEven fds

collect_fds-on_fds : (fds : List ℕ) → collect_fds (on_fds fds) ≡ some fds
unfolding collect_fds
collect_fds-on_fds [] = refl
collect_fds-on_fds (n ∷ fds) = rw (collect_fds-on_fds fds) refl

module _ {W : Type 0} (cond : (i : ℕ) → W → ℤ × W) where
  scan_fds-skips :
      (evens fds : List ℕ) (i : ℕ) (w : W)
      → AreEven evens
      → scan_fds cond (evens ++ fds) i w ≡ scan_fds cond fds (i + length evens) w
  unfolding scan_fds
  scan_fds-skips [] fds i w even = ap (λ j. scan_fds cond fds j w) (omega arith)
  scan_fds-skips (n ∷ evens) fds i w (e, even) =
      ground (arith, e)
      ∙ scan_fds-skips evens fds (suc i) w even
      ∙ ap (λ j. scan_fds cond fds j w) (omega arith)

  poll_fd_list-collects :
      (returns : ℕ) (fds : List ℕ) (w : W)
      → poll_fd_list cond returns (on_fds fds) w
        ≡ (poll_fds cond returns fds w >>= λ w. some (pos 0, w))
  unfolding poll_fd_list
  poll_fd_list-collects returns fds w = rw (collect_fds-on_fds fds, poll_fd_list) refl

  poll_fds-leaves :
      (k : ℕ) (fds : List ℕ) (w w' : W)
      → scan_fds cond fds 0 w ≡ leave w'
      → poll_fds cond (suc k) fds w ≡ some w'
  unfolding poll_fds
  poll_fds-leaves k fds w w' e = rw (e, poll_fds) refl

  poll_fds-again :
      (k : ℕ) (fds : List ℕ) (w w' : W)
      → scan_fds cond fds 0 w ≡ poll_again w'
      → poll_fds cond (suc k) fds w ≡ poll_fds cond k fds w'
  unfolding poll_fds
  poll_fds-again k fds w w' e = rw (e, poll_fds) refl

  -- The loop behind `poll` where an odd descriptor comes first
  poll_fds-odd :
      (fds : List ℕ) (i : ℕ)
      → ((w : W)
          → scan_fds cond fds 0 w
            ≡ (let (c, w') = cond i w in if is_zero c then leave w' else poll_again w'))
      → (returns : ℕ) (w : W) → poll_fds cond returns fds w ≡ poll_fd returns (cond i) w
  unfolding poll_fds poll_fd
  poll_fds-odd fds i h zero w = refl
  poll_fds-odd fds i h (suc k) w = elim (Bool-cases (is_zero (cond i w).0)) [
    | inl t ↦ poll_fds-leaves k fds w (cond i w).1 (h w ∙ rw t refl) ∙ rw t refl
    | inr f ↦
        poll_fds-again k fds w (cond i w).1 (h w ∙ rw f refl)
        ∙ poll_fds-odd fds i h k (cond i w).1
        ∙ rw f refl
  ]

  -- `hm_poll_fd_list` on even descriptors returns 0 the first time that `poll` returns, and calls no condition.
  pub poll_fd_list-even :
      (returns : ℕ) (evens : List ℕ) (w : W)
      → AreEven evens
      → poll_fd_list cond (suc returns) (on_fds evens) w ≡ some (pos 0, w)
  unfolding scan_fds
  poll_fd_list-even returns evens w even =
      poll_fd_list-collects (suc returns) evens w
      ∙ ap (λ o. o >>= λ w. some (pos 0, w))
          (poll_fds-leaves returns evens w w
            (rw (append-nil evens) at (scan_fds-skips evens [] 0 w even)))

  -- `hm_poll_fd_list` waits as `hm_poll_fd` would for the first odd descriptor, whatever the others are.
  pub poll_fd_list-first_odd :
      (returns : ℕ) (evens fds : List ℕ) (n : ℕ) (w : W)
      → AreEven evens
      → n % 2 ≡ 1
      → poll_fd_list cond returns (on_fds (evens ++ (n ∷ fds))) w
        ≡ (poll_fd returns (cond (length evens)) w >>= λ w. some (pos 0, w))
  unfolding scan_fds
  poll_fd_list-first_odd returns evens fds n w even odd =
      poll_fd_list-collects returns (evens ++ (n ∷ fds)) w
      ∙ ap (λ o. o >>= λ w. some (pos 0, w))
          (poll_fds-odd (evens ++ (n ∷ fds)) (length evens)
            (λ w.
              scan_fds-skips evens (n ∷ fds) 0 w even
              ∙ (let z : 0 + length evens ≡ length evens = omega arith in
                  rw z (ground (arith, odd))))
            returns w)
