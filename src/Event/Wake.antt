-- ===== src/Event/Wake.antt =====
-- `hm_event_buffer_wake` (src/core/event_unix.c) reaches every event of the list.
use hiemal.Base.{
  ℕ, zero, suc, ◌+◌, ◌≡◌, refl, some, List, [], ◌∷◌, ◌++◌, map, length, get_elem?, arith,
  append_assoc, length-append,
}
use hiemal.Event.{Event, Effect, IoEvent, pipe_write, wake_from, buffer_wake}

abbrev pub wakes : IoEvent → List Event → List Effect
wakes info = map (λ (e : Event). pipe_write e.pipe_write info)

get_elem?-append :
    (xs : List Event) (e : Event) (ys : List Event) (i : ℕ)
    → i ≡ length xs
    → get_elem? (xs ++ (e ∷ ys)) i ≡ some e
get_elem?-append [] e ys i h = rw h
get_elem?-append (x ∷ xs) e ys zero h = absurd (omega arith)
get_elem?-append (x ∷ xs) e ys (suc i) h = get_elem?-append xs e ys i (omega arith)

wake_from-wakes :
    (done l : List Event) (info : IoEvent) (i : ℕ)
    → i ≡ length done
    → wake_from (done ++ l) info (length l) i ≡ some (wakes info l)
unfolding wake_from
wake_from-wakes done [] info i h = refl
wake_from-wakes done (e ∷ l) info i h =
    let rest : wake_from (done ++ (e ∷ l)) info (length l) (i + 1) ≡ some (wakes info l) =
      rw (append_assoc done (e ∷ []) l) at (
        wake_from-wakes (done ++ (e ∷ [])) l info (i + 1)
          (omega (arith, length-append done (e ∷ [])))) in
    ground (arith, get_elem?-append done e l i h, rest)

-- The call never runs past the list, and writes one record to the pipe of each event, in order.
pub buffer_wake-wakes : (l : List Event) (info : IoEvent) → buffer_wake l info ≡ some (wakes info l)
unfolding buffer_wake
buffer_wake-wakes l info = wake_from-wakes [] l info 0 refl
