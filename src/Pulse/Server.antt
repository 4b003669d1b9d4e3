-- ===== src/Pulse/Server.antt =====
-- What src/core/pulse.c learns from the server: its callbacks, and `hm_pulse_connection_init` and
-- `hm_pulse_connection_close`.
use hiemal.Base.{
  ℕ, zero, suc, ◌%◌, ◌-◌, ◌^◌, Option, none, some, List, [], ◌∷◌, ◌++◌, map, ltb, if◌then◌else◌,
  ◌>>=◌,
}
use hiemal.Base.Int.{ℤ, pos, negsuc, ltb_ℤ}
use hiemal.Str.{Str}
use hiemal.Pulse.{
  playback, recording, hm_pulse_io_read, hm_pulse_io_write, IoDevice, IoNode, Devices, update,
  to_int, get_dev_io_id, io_list_to_array,
}

-- A call of a callback; `eol` is positive at the end of a list and negative after an error, and the pointer to
-- an item is null then.
pub record Call (A : Type 0) : Type 0 where
  pub eol : ℤ
  pub item : Option A

-- The fields that the callbacks read of `pa_card_info`, and of `pa_source_info` and `pa_sink_info`
pub record CardInfo : Type 0 where
  pub name : Str
  pub index : ℕ

pub record IoInfo : Type 0 where
  pub name : Str
  pub card : ℕ

-- An operation of libpulse: the callback is called until the operation is done.
unfoldable pub run_calls : {A S : Type 0} → (Call A → S → Option S) → List (Call A) → S → Option S
run_calls cb [] s = some s
run_calls cb (c ∷ cs) s = cb c s >>= λ s. run_calls cb cs s

unfoldable pub hm_pulse_n_cards_cb : Call CardInfo → ℕ → Option ℕ
hm_pulse_n_cards_cb c i = if ltb_ℤ (pos 0) c.eol then some i else some (suc i)

-- `indexed_dev_handle`, with the number of entries that `dev` has
pub record IndexedDev : Type 0 where
  pub dev : Devices
  pub size : ℕ
  pub dev_i : ℕ

unfoldable pub hm_pulse_card_list_cb : Call CardInfo → IndexedDev → Option IndexedDev
unfolding update
hm_pulse_card_list_cb c s =
    if ltb_ℤ (pos 0) c.eol
    then some s
    else if ltb s.dev_i s.size
    then c.item >>= (λ i. some (record s {
      dev = update s.dev s.dev_i (
          some
            (record { name = i.name; pulse_card_id = to_int i.index; room = 0; io_devices = [] }));
      dev_i = suc s.dev_i;
    }))
    else none

-- `_hm_pulse_source_list_cb` and `_hm_pulse_sink_list_cb`; `hm_list_append` of IntrusiveList appends to a list.
unfoldable pub hm_pulse_source_list_cb : Call IoInfo → List IoNode → Option (List IoNode)
hm_pulse_source_list_cb c l =
    if ltb_ℤ (pos 0) c.eol
    then some l
    else c.item >>= (λ i. some (
        l
        ++ (record {
          io_device = record {
            name = i.name;
            type = recording;
            read_fn = some hm_pulse_io_read;
            write_fn = none;
          };
          card_id = to_int i.card;
        }
            ∷ [])))

unfoldable pub hm_pulse_sink_list_cb : Call IoInfo → List IoNode → Option (List IoNode)
hm_pulse_sink_list_cb c l =
    if ltb_ℤ (pos 0) c.eol
    then some l
    else c.item >>= (λ i. some (
        l
        ++ (record {
          io_device = record {
            name = i.name;
            type = playback;
            read_fn = none;
            write_fn = some hm_pulse_io_write;
          };
          card_id = to_int i.card;
        }
            ∷ [])))

-- The fields that the code reads of `pa_server_info`
pub record ServerInfo : Type 0 where
  pub default_sink_name : Str
  pub default_source_name : Str

-- What the server answers: the calls it makes while cards are counted and listed, and while io devices are
-- listed. The structure that `_hm_pulse_server_info_cb` keeps a pointer to belongs to libpulse, which frees or
-- uses it again once the callback has returned: `left` is what stands there when `hm_pulse_connection_init`
-- follows the pointer, whatever the server had said, and `none` where this cannot be read.
pub record PaServer : Type 0 where
  pub counted : List (Call CardInfo)
  pub cards : List (Call CardInfo)
  pub sources : List (Call IoInfo)
  pub sinks : List (Call IoInfo)
  pub left : Option ServerInfo

-- `hm_backend_connection_t`; the ids of `default_dev_io` are unsigned.
pub record Backend : Type 0 where
  pub backend_name : Str
  pub n_devices : ℕ
  pub devices : Devices
  pub dev_io_list : List IoNode
  pub default_sink : ℕ
  pub default_source : ℕ

abbrev pub pulseaudio : Str
pulseaudio = 112 ∷ 117 ∷ 108 ∷ 115 ∷ 101 ∷ 97 ∷ 117 ∷ 100 ∷ 105 ∷ 111 ∷ []

-- `int` to `unsigned int`
abbrev pub to_unsigned : ℤ → ℕ
to_unsigned (pos n) = n % 2 ^ 32
to_unsigned (negsuc n) = 2 ^ 32 - 1 - n % 2 ^ 32

unfoldable pub hm_pulse_n_cards : PaServer → Option ℕ
unfolding run_calls hm_pulse_n_cards_cb
hm_pulse_n_cards p = run_calls hm_pulse_n_cards_cb p.counted 0

-- `hm_pulse_connection_init`, once the context is ready
unfoldable pub hm_pulse_connection_init : PaServer → Option Backend
unfolding hm_pulse_n_cards run_calls hm_pulse_card_list_cb hm_pulse_source_list_cb
    hm_pulse_sink_list_cb io_list_to_array get_dev_io_id
hm_pulse_connection_init p = hm_pulse_n_cards p >>= λ n_cards.
    run_calls hm_pulse_card_list_cb p.cards (record { dev = λ _. none; size = n_cards; dev_i = 0 })
    >>= λ handle. run_calls hm_pulse_source_list_cb p.sources [] >>= λ l.
        run_calls hm_pulse_sink_list_cb p.sinks l >>= λ l.
        io_list_to_array l n_cards handle.dev >>= λ devices. p.left >>= λ info. some (record {
          backend_name = pulseaudio;
          n_devices = n_cards;
          devices = devices;
          dev_io_list = l;
          default_sink = to_unsigned (get_dev_io_id l info.default_sink_name 0);
          default_source = to_unsigned (get_dev_io_id l info.default_source_name 0);
        })

-- The names that `hm_pulse_dump_info` prints of the devices, each with the indentation of its line
unfoldable pub dump_devices : (rounds i : ℕ) → Devices → Option (List (ℕ × Str))
dump_devices zero i ds = some []
dump_devices (suc k) i ds = ds i >>= λ d. dump_devices k (suc i) ds >>= λ rest.
    some ((2, d.name) ∷ map (λ (x : IoDevice). (6, x.name)) d.io_devices ++ rest)

-- `left` is what stands behind `server_info` at this call.
unfoldable pub hm_pulse_dump_info : (left : Option ServerInfo) → Backend → Option (List (ℕ × Str))
unfolding dump_devices
hm_pulse_dump_info left b = dump_devices b.n_devices 0 b.devices >>= λ ls.
    left >>= λ info. some (ls ++ ((2, info.default_source_name) ∷ (2, info.default_sink_name) ∷ []))

-- What `hm_pulse_connection_close` does to the server's objects, and frees, in order
pub data Release : Type 0 where
  mainloop_stop context_disconnect context_unref mainloop_free : Release
  io_device : IoDevice → Release
  io_array device : (i : ℕ) → Release
  devices_array io_list backend : Release

unfoldable pub free_devices : (rounds i : ℕ) → Devices → Option (List Release)
free_devices zero i ds = some []
free_devices (suc k) i ds = ds i >>= λ d. free_devices k (suc i) ds >>= λ rest.
    some (map io_device d.io_devices ++ (io_array i ∷ device i ∷ rest))

unfoldable pub hm_pulse_connection_close : Backend → Option (List Release)
unfolding free_devices
hm_pulse_connection_close b = free_devices b.n_devices 0 b.devices >>= λ freed. some (
    mainloop_stop ∷ context_disconnect ∷ context_unref ∷ mainloop_free ∷ freed
    ++ (devices_array ∷ io_list ∷ backend ∷ []))
