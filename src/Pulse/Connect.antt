-- ===== src/Pulse/Connect.antt =====
-- The connections to io devices that src/core/pulse.c opens.
use hiemal.Base.{ℕ, zero, suc, Option, none, some, List, [], ◌∷◌, ◌++◌, ◌>>=◌}
use hiemal.Str.{Str}
use hiemal.Pulse.{
  IoType, playback, recording, IoFn, hm_pulse_io_read_ext, hm_pulse_io_write_ext, IoNode,
}
use hiemal.Pulse.Server.{Backend}

-- What is asked of a new stream
pub data StreamCall : Type 0 where
  connect_playback connect_record : (dev : Str) → StreamCall
  set_write_callback set_read_callback set_state_callback : StreamCall

pub data Handle : Type 0 where
  uninitialised pulse_handle : Handle
  new_stream : List StreamCall → Handle

pub data SizeFn : Type 0 where
  hm_pulse_bytes_readable hm_pulse_bytes_writable : SizeFn

-- `hm_device_io_connection_t`; `none` is a function that is not set.
pub record Connection : Type 0 where
  pub type : IoType
  pub backend_dev_io_handle : Handle
  pub backend_handle : Handle
  pub read_fn : IoFn
  pub write_fn : IoFn
  pub bytes_readable_fn : Option SizeFn
  pub bytes_writable_fn : Option SizeFn

-- The `switch` on the direction; a stream for playback falls through to the calls for recording.
abbrev pub connect_calls : IoType → (dev : Str) → List StreamCall
connect_calls playback dev =
    connect_playback dev ∷ set_write_callback ∷ connect_record dev ∷ set_read_callback ∷ []
connect_calls recording dev = connect_record dev ∷ set_read_callback ∷ []

-- The node that `io_node_itr` reaches after `id` steps
unfoldable pub io_node_at : List IoNode → (id : ℕ) → Option IoNode
io_node_at [] id = none
io_node_at (n ∷ l) zero = some n
io_node_at (n ∷ l) (suc id) = io_node_at l id

-- The connection to the node that was reached
abbrev pub connection_to : IoNode → Connection
connection_to n = record {
  type = n.io_device.type;
  backend_dev_io_handle =
      new_stream (connect_calls n.io_device.type n.io_device.name ++ (set_state_callback ∷ []));
  backend_handle = pulse_handle;
  read_fn = hm_pulse_io_read_ext;
  write_fn = hm_pulse_io_write_ext;
  bytes_readable_fn = some hm_pulse_bytes_readable;
  bytes_writable_fn = some hm_pulse_bytes_writable;
}

unfoldable pub hm_pulse_io_connect_by_id : Backend → (id : ℕ) → Option Connection
unfolding io_node_at
hm_pulse_io_connect_by_id b id = io_node_at b.dev_io_list id >>= λ n. some (connection_to n)

-- "default"
abbrev pub default_dev : Str
default_dev = 100 ∷ 101 ∷ 102 ∷ 97 ∷ 117 ∷ 108 ∷ 116 ∷ []

unfoldable pub hm_pulse_default_io_connect : IoType → Connection
hm_pulse_default_io_connect dir = record {
  type = dir;
  backend_dev_io_handle = uninitialised;
  backend_handle = new_stream (connect_calls dir default_dev);
  read_fn = hm_pulse_io_read_ext;
  write_fn = hm_pulse_io_write_ext;
  bytes_readable_fn = none;
  bytes_writable_fn = none;
}
