-- ===== src/Thread/Usable.antt =====
-- Which calls on the registry of src/core/thread.c keep it usable.
use hiemal.Base.{
  ◌≡◌, refl, ap, sym, ◌∙◌, ◌⊎◌, Option, none, some, List, [], ◌∷◌, ◌++◌, ◌>>=◌, arith, append_assoc,
  append-nil,
}
use hiemal.Thread.{
  ThreadId, Registry, null, uninitialised, freed, list_of, threads_info_init, threads_info_cleanup,
  threads_info_reset, thread_init, thread_join_all, RegistryOp, info_init, info_cleanup, info_reset,
  join_all, create, perform, Reaches, here, then_op,
}

-- The calls that a program makes between the start and the end of a process
abbrev pub IsPlain : RegistryOp → Type 0
IsPlain info_init = Unit {0}
IsPlain join_all = Unit {0}
IsPlain (create id) = Unit {0}
IsPlain info_cleanup = ⊥
IsPlain info_reset = ⊥

unfoldable pub run_ops : List RegistryOp → Registry → Option Registry
run_ops [] r = some r
run_ops (op ∷ ops) r = perform op r >>= λ r. run_ops ops r

abbrev pub AllPlain : List RegistryOp → Type 0
AllPlain [] = Unit {0}
AllPlain (op ∷ ops) = IsPlain op × AllPlain ops

-- The threads that calls create
abbrev pub created : List RegistryOp → List ThreadId
created [] = []
created (create id ∷ ops) = id ∷ created ops
created (info_init ∷ ops) = created ops
created (info_cleanup ∷ ops) = created ops
created (info_reset ∷ ops) = created ops
created (join_all ∷ ops) = created ops

run_ops-keeps :
    (ops : List RegistryOp) (ids : List ThreadId)
    → AllPlain ops
    → run_ops ops (list_of ids) ≡ some (list_of (ids ++ created ops))
unfolding run_ops perform threads_info_init thread_init thread_join_all
run_ops-keeps [] ids plain = ap (λ xs. some (list_of xs)) (sym (append-nil ids))
run_ops-keeps (info_init ∷ ops) ids (p, plain) = run_ops-keeps ops ids plain
run_ops-keeps (info_cleanup ∷ ops) ids (p, plain) = absurd p
run_ops-keeps (info_reset ∷ ops) ids (p, plain) = absurd p
run_ops-keeps (join_all ∷ ops) ids (p, plain) = run_ops-keeps ops ids plain
run_ops-keeps (create id ∷ ops) ids (p, plain) =
    run_ops-keeps ops (ids ++ (id ∷ [])) plain
    ∙ ap (λ xs. some (list_of xs)) (append_assoc ids (id ∷ []) (created ops))

-- After `threads_info_init`, no sequence of further calls of it, of `thread_init` and of `thread_join_all` follows a
-- wild pointer, and a `thread_join_all` behind them joins all the threads created, in order.
pub thread_join_all-joins :
    (ops : List RegistryOp)
    → AllPlain ops
    → (run_ops (info_init ∷ ops) null >>= thread_join_all)
      ≡ some (created ops, list_of (created ops))
unfolding run_ops perform threads_info_init thread_join_all
thread_join_all-joins ops plain = rw (run_ops-keeps ops [] plain) refl

-- A registry that was reset or cleaned up
abbrev pub IsLost : Registry → Type 0
IsLost r = (r ≡ uninitialised) ⊎ (r ≡ freed)

IsLost-perform : (op : RegistryOp) (r s : Registry) → IsLost r → perform op r ≡ some s → IsLost s
unfolding perform threads_info_init threads_info_cleanup threads_info_reset thread_init
    thread_join_all
IsLost-perform info_init r s lost e = ground (arith, lost, e)
IsLost-perform info_cleanup r s lost e = ground (arith, lost, e)
IsLost-perform info_reset r s lost e = ground (arith, lost, e)
IsLost-perform join_all r s lost e = ground (arith, lost, e)
IsLost-perform (create id) r s lost e = ground (arith, lost, e)

IsLost-Reaches : {r s : Registry} → IsLost r → Reaches r s → IsLost s
IsLost-Reaches lost here = lost
IsLost-Reaches lost (then_op steps op e) = IsLost-perform op _ _ (IsLost-Reaches lost steps) e

-- After `threads_info_reset` of a list, and after `threads_info_cleanup` of one, no sequence of calls makes the
-- registry usable again: `thread_init` and `thread_join_all` follow a wild pointer ever after.
pub threads_info_reset-loses :
    (ids : List ThreadId) (id : ThreadId) {r s : Registry}
    → (threads_info_reset (list_of ids) ≡ some r) ⊎ (perform info_cleanup (list_of ids) ≡ some r)
    → Reaches r s
    → (thread_init id s ≡ none) × (thread_join_all s ≡ none)
unfolding perform threads_info_reset threads_info_cleanup thread_init thread_join_all
threads_info_reset-loses ids id ended steps =
    let lost : IsLost _ = IsLost-Reaches (ground (arith, ended)) steps in ground (arith, lost)
