-- ===== src/Device.antt =====
-- src/core/backend.c and src/core/device.c: backends by their names, and the io devices behind them. The table
-- holds the PulseAudio backend, as in a build with it. `none` is a null or wild pointer that is followed.
pub mod Defaults
mod Tests
use hiemal.Base.{ℕ, Option, none, some, List, [], ◌∷◌, ◌>>=◌, if◌then◌else◌}
use hiemal.Base.Int.{ℤ, pos, negsuc}
use hiemal.Str.{Str, eq_str}
use hiemal.Buffer.{Buffer}
use hiemal.Pulse.{IoType, playback, recording, IoFn, IoDevice}
use hiemal.Pulse.Server.{
  ServerInfo, PaServer, Backend, Release, pulseaudio, hm_pulse_connection_init,
  hm_pulse_connection_close, hm_pulse_dump_info,
}
use hiemal.Pulse.Connect.{Connection, SizeFn, hm_pulse_io_connect_by_id}

-- `struct backend_info`
pub record BackendInfo : Type 0 where
  pub name : Str
  pub init_fn : PaServer → Option Backend
  pub delete_fn : Backend → Option (List Release)
  pub dump_info_fn : Option ServerInfo → Backend → Option (List (ℕ × Str))
  pub io_connect_fn : Backend → ℕ → Option Connection

abbrev pub available_backends : List BackendInfo
available_backends =
    record {
      name = pulseaudio;
      init_fn = hm_pulse_connection_init;
      delete_fn = hm_pulse_connection_close;
      dump_info_fn = hm_pulse_dump_info;
      io_connect_fn = hm_pulse_io_connect_by_id;
    }
    ∷ []

abbrev pub hm_backend_list : List Str
hm_backend_list = pulseaudio ∷ []

-- `get_backend_by_name` over a table
unfoldable pub get_backend_by_name : List BackendInfo → Str → Option BackendInfo
unfolding eq_str
get_backend_by_name [] name = none
get_backend_by_name (i ∷ table) name =
    let rest = get_backend_by_name table name in if eq_str name i.name then some i else rest

-- The code that is returned, and the backend that is left behind the pointer
unfoldable pub hm_backend_init : Str → PaServer → Option (ℤ × Option Backend)
unfolding get_backend_by_name
hm_backend_init name p = elim (get_backend_by_name available_backends name) [
  | none ↦ some (negsuc 0, none)
  | some info ↦ info.init_fn p >>= λ b. some (pos 0, some b)
]

unfoldable pub hm_backend_close : Backend → Option (ℤ × List Release)
unfolding get_backend_by_name
hm_backend_close b = elim (get_backend_by_name available_backends b.backend_name) [
  | none ↦ some (negsuc 0, [])
  | some info ↦ info.delete_fn b >>= λ freed. some (pos 0, freed)
]

unfoldable pub hm_backend_dump_info : Option ServerInfo → Backend → Option (ℤ × List (ℕ × Str))
unfolding get_backend_by_name
hm_backend_dump_info p b = elim (get_backend_by_name available_backends b.backend_name) [
  | none ↦ some (negsuc 0, [])
  | some info ↦ info.dump_info_fn p b >>= λ ls. some (pos 0, ls)
]

-- The connection behind the pointer; the code is 0 whatever `io_connect_fn` returns.
unfoldable pub default_device_io_connect : Backend → IoType → Option Connection
unfolding get_backend_by_name
default_device_io_connect b dir = get_backend_by_name available_backends b.backend_name >>= λ info.
    info.io_connect_fn b (elim dir [ playback ↦ b.default_sink | recording ↦ b.default_source ])

-- The transfers; `call` is the function behind a pointer, at the device or connection that it is given.
module _ {A : Type 0} (call : IoFn → Buffer → (n_bytes : ℕ) → Option A) where
  unfoldable pub device_io_read : IoDevice → Buffer → (n_bytes : ℕ) → Option A
  device_io_read io buf n_bytes = io.read_fn >>= λ f. call f buf n_bytes

  unfoldable pub device_io_write : IoDevice → Buffer → (n_bytes : ℕ) → Option A
  device_io_write io buf n_bytes = io.write_fn >>= λ f. call f buf n_bytes

  abbrev pub device_io_read_ext : Connection → Buffer → (n_bytes : ℕ) → Option A
  device_io_read_ext io buf n_bytes = call io.read_fn buf n_bytes

  abbrev pub device_io_write_ext : Connection → Buffer → (n_bytes : ℕ) → Option A
  device_io_write_ext io buf n_bytes = call io.write_fn buf n_bytes

-- The return value and the function whose result is stored. `junk` is the value of a function that ends without a
-- `return`.
unfoldable pub device_io_bytes_readable : Connection → (junk : ℤ) → Option (ℤ × Option SizeFn)
device_io_bytes_readable io junk = elim io.type [
  | playback ↦ some (negsuc 0, none)
  | recording ↦ io.bytes_readable_fn >>= λ f. some (junk, some f)
]

unfoldable pub device_io_bytes_writable : Connection → (junk : ℤ) → Option (ℤ × Option SizeFn)
device_io_bytes_writable io junk = elim io.type [
  | recording ↦ some (negsuc 0, none)
  | playback ↦ io.bytes_writable_fn >>= λ f. some (junk, some f)
]
