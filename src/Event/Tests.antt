-- ===== src/Event/Tests.antt =====
-- The list poll of even descriptors, and of one odd descriptor among others, under a condition that counts its calls.
use hiemal.Base.{ℕ, suc, ◌≡◌, refl, some, [], ◌∷◌}
use hiemal.Base.Int.{ℤ, pos, negsuc}
use hiemal.Event.Poll.{poll_fd, poll_fd_list}
use hiemal.Event.Parity.{on_fds, poll_fd_list-first_odd}

-- It holds from the third call on.
abbrev third : (i : ℕ) → ℕ → ℤ × ℕ
third i calls = (elim calls [ suc (suc n) ↦ pos 0 | _ ↦ negsuc 0 ], suc calls)

poll_fd_list-first_odd_example : poll_fd_list third 5 (on_fds (4 ∷ 7 ∷ 9 ∷ [])) 0 ≡ some (pos 0, 3)
unfolding poll_fd
poll_fd_list-first_odd_example =
    poll_fd_list-first_odd third 5 (4 ∷ []) (9 ∷ []) 7 0 (refl, tt) refl
