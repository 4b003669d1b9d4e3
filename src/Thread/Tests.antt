-- ===== src/Thread/Tests.antt =====
-- The theorems on the registry of threads at short runs.
use hiemal.Base.{List, [], ◌∷◌}
use hiemal.Thread.{RegistryOp, join_all, create}

abbrev two_threads : List RegistryOp
two_threads = create 3 ∷ join_all ∷ create 4 ∷ []
