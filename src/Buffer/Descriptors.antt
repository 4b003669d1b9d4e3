-- ===== src/Buffer/Descriptors.antt =====
-- The set of descriptors that a buffer signals (src/core/buffer.c): a chain of nodes behind a head
-- node that holds -1. The chain is private to the set, so it is modelled as its sequence.
use hiemal.Base.{ℕ, ◌+◌, Bool, true, false, List, [], ◌∷◌, ◌++◌, map, if◌then◌else◌}
use hiemal.Base.Int.{ℤ, negsuc, eqb_ℤ}
use hiemal.Event.{Effect, fd_write}

-- `struct _buffer_fd_set`. `head` lists the whole chain, the node of -1 first.
pub record FdSet : Type 0 where
  pub head : List ℤ
  pub n_fds : ℕ

-- `buffer_fd_set_init` leaves `n_fds` as `malloc` gave it.
unfoldable pub fd_set_init : (junk : ℕ) → FdSet
fd_set_init junk = record { head = negsuc 0 ∷ []; n_fds = junk }

-- The walk of `buffer_fd_set_insert`: whether a node holds `fd`.
unfoldable pub has_fd : List ℤ → ℤ → Bool
has_fd [] fd = false
has_fd (x ∷ xs) fd = if eqb_ℤ fd x then true else has_fd xs fd

unfoldable pub fd_set_insert : FdSet → ℤ → FdSet
unfolding has_fd
fd_set_insert s fd =
    if has_fd s.head fd then s else record { head = s.head ++ (fd ∷ []); n_fds = s.n_fds + 1 }

-- The chain past its first node; `head` is never null in a set that `fd_set_init` made.
unfoldable pub fds : List ℤ → List ℤ
fds [] = []
fds (x ∷ xs) = xs

-- `buffer_signal_fds`
unfoldable pub signal_fds : FdSet → ℕ → List Effect
unfolding fds
signal_fds s n_bytes = map (λ fd. fd_write fd n_bytes) (fds s.head)

unfoldable pub fd_set_insert_all : FdSet → List ℤ → FdSet
fd_set_insert_all s [] = s
fd_set_insert_all s (x ∷ xs) = fd_set_insert_all (fd_set_insert s x) xs
