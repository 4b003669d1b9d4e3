-- ===== src/Buffer/Signals.antt =====
-- Which descriptors a buffer of src/core/buffer.c signals.
use hiemal.Base.{
  ℕ, ◌+◌, ◌≡◌, refl, ap, true, false, List, [], ◌∷◌, ◌++◌, map, if◌then◌else◌, arith, not, ◌&&◌,
  Bool-cases, inl, inr,
}
use hiemal.Base.Int.{ℤ, negsuc, eqb_ℤ}
use hiemal.Event.{Effect, fd_write, pipe_write}
use hiemal.Buffer.Descriptors.{
  FdSet, fd_set_init, has_fd, fd_set_insert, fds, signal_fds, fd_set_insert_all,
}

-- How often `x` is written to
abbrev pub writes_to : ℤ → List Effect → ℕ
writes_to x [] = 0
writes_to x (fd_write fd n ∷ fx) = (if eqb_ℤ x fd then 1 else 0) + writes_to x fx
writes_to x (pipe_write fd i ∷ fx) = writes_to x fx

abbrev count : ℤ → List ℤ → ℕ
count x [] = 0
count x (y ∷ l) = (if eqb_ℤ x y then 1 else 0) + count x l

eqb_ℤ→eq : (x y : ℤ) → eqb_ℤ x y ≡ true → x ≡ y
eqb_ℤ→eq x y h = ground arith

eqb_ℤ-refl : (x : ℤ) → eqb_ℤ x x ≡ true
eqb_ℤ-refl x = ground arith

has_fd-snoc :
    (l : List ℤ) (x y : ℤ) → has_fd (l ++ (y ∷ [])) x ≡ (if has_fd l x then true else eqb_ℤ x y)
unfolding has_fd
has_fd-snoc [] x y = ground arith
has_fd-snoc (z ∷ l) x y = ground (arith, has_fd-snoc l x y)

count-snoc :
    (l : List ℤ) (x y : ℤ) → count x (l ++ (y ∷ [])) ≡ count x l + (if eqb_ℤ x y then 1 else 0)
count-snoc [] x y = omega arith
count-snoc (z ∷ l) x y = omega (arith, count-snoc l x y)

count-zero : (l : List ℤ) (x : ℤ) → has_fd l x ≡ false → count x l ≡ 0
unfolding has_fd
count-zero [] x h = refl
count-zero (z ∷ l) x h = ground (arith, count-zero l x)

module _ (s : FdSet) (y x : ℤ) where
  same-has : eqb_ℤ x y ≡ true → has_fd s.head x ≡ has_fd s.head y
  same-has e = ap (has_fd s.head) (eqb_ℤ→eq x y e)

  has_fd-insert : has_fd (fd_set_insert s y).head x ≡ (if has_fd s.head x then true else eqb_ℤ x y)
  unfolding fd_set_insert
  has_fd-insert = ground (arith, has_fd-snoc s.head x y, same-has)

  count-insert :
      count x (fd_set_insert s y).head
      ≡ (if has_fd s.head x then count x s.head else if eqb_ℤ x y then 1 else 0)
  unfolding fd_set_insert
  count-insert = elim (Bool-cases (has_fd s.head y)) [
    | inl old ↦ rw old (ground (arith, count-zero s.head x, same-has))
    | inr new ↦ rw new (ground (arith, count-snoc s.head x y, count-zero s.head x, same-has))
  ]

count-insert_all :
    (xs : List ℤ) (s : FdSet) (x : ℤ)
    → count x (fd_set_insert_all s xs).head
      ≡ (if has_fd s.head x then count x s.head else if has_fd xs x then 1 else 0)
unfolding fd_set_insert_all has_fd
count-insert_all [] s x = ground (arith, count-zero s.head x)
count-insert_all (y ∷ xs) s x =
    ground
      (arith, count-insert_all xs (fd_set_insert s y) x, has_fd-insert s y x, count-insert s y x)

-- The head node stays where it is.
head-insert :
    (s : FdSet) (y z : ℤ) (l : List ℤ)
    → s.head ≡ z ∷ l
    → (t : List ℤ) × ((fd_set_insert s y).head ≡ z ∷ t)
unfolding fd_set_insert
head-insert s y z l e = elim (Bool-cases (has_fd s.head y)) [
  | inl old ↦ (l, ground arith)
  | inr new ↦ (l ++ (y ∷ []), ground arith)
]

head-insert_all :
    (xs : List ℤ) (s : FdSet) (z : ℤ) (l : List ℤ)
    → s.head ≡ z ∷ l
    → (t : List ℤ) × ((fd_set_insert_all s xs).head ≡ z ∷ t)
unfolding fd_set_insert_all
head-insert_all [] s z l e = (l, e)
head-insert_all (y ∷ xs) s z l e =
    let (t, e') = head-insert s y z l e in head-insert_all xs (fd_set_insert s y) z t e'

writes_to-signal :
    (x : ℤ) (l : List ℤ) (n : ℕ) → writes_to x (map (λ fd. fd_write fd n) l) ≡ count x l
writes_to-signal x [] n = refl
writes_to-signal x (y ∷ l) n = omega (arith, writes_to-signal x l n)

-- After any insertions into a new set, a signal writes exactly once to each descriptor that was
-- inserted, however often, and to no other; -1, which marks the head node, is never written to.
pub signal_fds-once :
    (xs : List ℤ) (junk n : ℕ) (x : ℤ)
    → writes_to x (signal_fds (fd_set_insert_all (fd_set_init junk) xs) n)
      ≡ (if has_fd xs x && not (eqb_ℤ x (negsuc 0)) then 1 else 0)
unfolding signal_fds fds fd_set_init has_fd
signal_fds-once xs junk n x =
    let start = fd_set_init junk in
    let (t, e) = head-insert_all xs start (negsuc 0) [] refl in
    let counted = rw e at (count-insert_all xs start x) in
    rw e (rw (writes_to-signal x t n) (ground (arith, counted)))
