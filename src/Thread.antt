-- ===== src/Thread.antt =====
-- src/core/thread.c and `thread_init` of thread_unix.c: the registry of threads, by the value of the pointer
-- `threads_info`. The registered threads are a list, to which `hm_list_append` appends. `none` is a pointer to no
-- list that is followed, or memory that is freed twice.
pub mod Usable
mod Tests
use hiemal.Base.{ℕ, Option, none, some, List, [], ◌∷◌, ◌++◌, ◌≡◌, ◌>>=◌}
use hiemal.Base.Int.{ℤ, pos, negsuc}

abbrev pub ThreadId : Type 0
ThreadId = ℕ

-- What `threads_info` points at: nothing, a list, new memory that was never set, or memory that was freed
pub data Registry : Type 0 where
  null uninitialised freed : Registry
  list_of : List ThreadId → Registry

unfoldable pub threads_info_init : Registry → ℤ × Registry
threads_info_init null = (pos 0, list_of [])
threads_info_init r = (negsuc 0, r)

unfoldable pub threads_info_cleanup : Registry → Option (ℤ × Registry)
threads_info_cleanup null = some (negsuc 0, null)
threads_info_cleanup freed = none
threads_info_cleanup uninitialised = some (pos 0, freed)
threads_info_cleanup (list_of ids) = some (pos 0, freed)

unfoldable pub threads_info_reset : Registry → Option Registry
threads_info_reset null = some null
threads_info_reset freed = none
threads_info_reset uninitialised = some uninitialised
threads_info_reset (list_of ids) = some uninitialised

-- The list behind the pointer
abbrev pub follow : Registry → Option (List ThreadId)
follow (list_of ids) = some ids
follow null = none
follow uninitialised = none
follow freed = none

-- `thread_init`, with the id that `pthread_create` gives
unfoldable pub thread_init : ThreadId → Registry → Option Registry
thread_init id r = follow r >>= λ ids. some (list_of (ids ++ (id ∷ [])))

-- The threads that `thread_join_all` joins, in order; they stay in the list.
unfoldable pub thread_join_all : Registry → Option (List ThreadId × Registry)
thread_join_all r = follow r >>= λ ids. some (ids, r)

pub data RegistryOp : Type 0 where
  info_init info_cleanup info_reset join_all : RegistryOp
  create : ThreadId → RegistryOp

unfoldable pub perform : RegistryOp → Registry → Option Registry
unfolding threads_info_init threads_info_cleanup threads_info_reset thread_init thread_join_all
perform info_init r = some (threads_info_init r).1
perform info_cleanup r = threads_info_cleanup r >>= λ s. some s.1
perform info_reset r = threads_info_reset r
perform join_all r = thread_join_all r >>= λ s. some s.1
perform (create id) r = thread_init id r

-- The registries that calls lead to, from one on
pub data Reaches : Registry → Registry → Type 0 where
  here : {r : Registry} → Reaches r r
  then_op :
      {r s t : Registry} → Reaches r s → (op : RegistryOp) → perform op s ≡ some t → Reaches r t
