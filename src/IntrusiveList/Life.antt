-- ===== src/IntrusiveList/Life.antt =====
-- Lists from their initialisation to their end: the macros `HM_LIST_INIT` and `HM_LIST_NODE_INIT` of
-- src/core/include/intern/common.h, and `hm_list_delete`, `is_list` and `is_list_node` of
-- src/core/common.c.
pub mod Grown
use hiemal.Base.{ℕ, ◌+◌, ◌*◌, ◌^◌, Bool, List, [], ◌∷◌, ◌==◌}
use hiemal.Base.Int.{ℤ, pos}
use hiemal.IntrusiveList.{
  Ptr, null, default_free, Node, Cells, ListState, Run, Cmd, pure, ◌>>=◌, ◌>>◌, list_magic,
  list_node_magic, refnode_magic, append,
}
use hiemal.IntrusiveList.Access.{clear}

unfoldable pub list_init : ListState → ListState
list_init s = record s { head = null; n_items = 0; magic = list_magic }

-- The bits of the two numbers are apart.
unfoldable pub reflist_init : ListState → ListState
reflist_init s = record s { head = null; n_items = 0; magic = refnode_magic * 2 ^ 32 + list_magic }

unfoldable pub list_node_init : Node → Node
list_node_init n = record n {
  free_fn = default_free;
  data_size = 0;
  prev = null;
  next = null;
  magic = list_node_magic;
}

unfoldable pub reflist_node_init : Node → Node
reflist_node_init n = record n {
  free_fn = default_free;
  data_size = 0;
  prev = null;
  next = null;
  node = null;
  magic = refnode_magic * 2 ^ 32 + list_node_magic;
}

unfoldable pub is_list : (magic : ℕ) → Bool
is_list magic = magic == list_magic

unfoldable pub is_list_node : (magic : ℕ) → Bool
is_list_node magic = magic == list_node_magic

-- `free(list)` leaves the heap of the nodes alone.
unfoldable pub list_delete : (callback : ℕ → Ptr → Cells → Cells) → ListState → Run ℤ
list_delete callback = do clear callback; pure (pos 0)

-- A client that appends one node after the other
unfoldable pub append_all : (fresh : Ptr) → List Ptr → Cmd (Unit {0})
append_all fresh [] = pure tt
append_all fresh (p ∷ ps) = do append fresh p; append_all fresh ps

-- Lists of events, of src/core/event_unix.c
unfoldable pub event_list_init : ListState → ListState
unfolding list_init
event_list_init = list_init

unfoldable pub event_reflist_init : ListState → ListState
unfolding reflist_init
event_reflist_init = reflist_init

-- The handle is null afterwards.
unfoldable pub event_list_delete : (callback : ℕ → Ptr → Cells → Cells) → ListState → Run ℤ
unfolding list_delete
event_list_delete = list_delete
