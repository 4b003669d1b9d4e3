-- ===== src/Buffer/Delete.antt =====
-- `buffer_delete` and `buffer_fd_set_delete` of src/core/buffer.c: what they free, in order.
use hiemal.Base.{List, [], ◌∷◌, ◌++◌, if◌then◌else◌}
use hiemal.Base.Int.{ℤ}
use hiemal.Buffer.{Buffer}
use hiemal.Buffer.Descriptors.{FdSet}

pub data Freed : Type 0 where
  memory_area : Freed
  fd_node : (fd : ℤ) → Freed
  fd_set mutex event_list handle : Freed

-- The walk over the nodes
unfoldable pub free_nodes : List ℤ → List Freed
free_nodes [] = []
free_nodes (fd ∷ rest) = fd_node fd ∷ free_nodes rest

unfoldable pub fd_set_delete : FdSet → List Freed
unfolding free_nodes
fd_set_delete s = free_nodes s.head ++ fd_set ∷ []

-- The area is the caller's where the buffer was made by `buffer_init_ext`.
unfoldable pub buffer_delete : Buffer → List Freed
unfolding fd_set_delete
buffer_delete b =
    (if b.ext_buf then [] else memory_area ∷ [])
    ++ fd_set_delete b.fd_set
    ++ (mutex ∷ event_list ∷ handle ∷ [])
