-- ===== src/Pulse.antt =====
-- src/core/pulse.c, with the structures of include/intern/backend.h and device.h: the cards and io devices that
-- a PulseAudio server lists, and connections to them. The server and libpulse are parameters: what they do is
-- the calls they make of the callbacks, in order. `none` is a null or wild pointer that is followed, or a
-- place outside an array.
pub mod Server
pub mod Connect
pub mod Transfer
pub mod Cards
pub mod Listing
pub mod Connecting
pub mod Delivery
pub mod Fragments
pub mod State
pub mod Ready
pub mod Tests
use hiemal.Base.{
  ℕ, zero, suc, ◌+◌, ◌-◌, ◌%◌, ◌^◌, Bool, false, Option, none, some, List, [], ◌∷◌, ◌++◌, length,
  ltb, ◌==◌, if◌then◌else◌, ◌>>=◌,
}
use hiemal.Base.Int.{ℤ, pos, negsuc, pos_part, eqb_ℤ}
use hiemal.Str.{Str, eq_str}

-- `hm_io_type_t`
pub data IoType : Type 0 where
  playback recording : IoType

-- The functions that an io device or a connection may hold
pub data IoFn : Type 0 where
  hm_pulse_io_read hm_pulse_io_write hm_pulse_io_read_ext hm_pulse_io_write_ext : IoFn

-- `hm_device_io_t`; its handles point at the server and are not modelled.
pub record IoDevice : Type 0 where
  pub name : Str
  pub type : IoType
  pub read_fn : Option IoFn
  pub write_fn : Option IoFn

pub record IoNode : Type 0 where
  pub io_device : IoDevice
  pub card_id : ℤ

-- `hm_pulse_device_t`: `io_devices` holds the first `n_io_devices` entries of an array with room for `room`.
pub record Device : Type 0 where
  pub name : Str
  pub pulse_card_id : ℤ
  pub room : ℕ
  pub io_devices : List IoDevice

-- An array of devices; `none` is an entry that was never set.
abbrev pub Devices : Type 0
Devices = ℕ → Option Device

-- An array with one entry replaced
unfoldable pub update : {A : Type 0} → (ℕ → A) → ℕ → A → ℕ → A
update f i a k = if k == i then a else f k

-- `uint32_t` to `int`
abbrev pub to_int : ℕ → ℤ
to_int n = if ltb n (2 ^ 31) then pos n else negsuc (2 ^ 32 - 1 - n)

-- `get_dev_io_id`, with `i`, an `int` that is taken to wrap
unfoldable pub get_dev_io_id : List IoNode → Str → (i : ℕ) → ℤ
unfolding eq_str
get_dev_io_id [] name i = negsuc 0
get_dev_io_id (n ∷ l) name i =
    let rest = get_dev_io_id l name (suc i) in
    if eq_str n.io_device.name name then to_int (i % 2 ^ 32) else rest

-- `get_index_from_card_id`, with the rounds left and `i`
unfoldable pub get_index_from_card_id : Devices → (card_id : ℤ) → (rounds i : ℕ) → Option ℤ
get_index_from_card_id cards card_id zero i = some (negsuc 0)
get_index_from_card_id cards card_id (suc k) i =
    let rest = get_index_from_card_id cards card_id k (suc i) in
    cards i >>= λ d. if eqb_ℤ d.pulse_card_id card_id then some (pos i) else rest

abbrev pub in_range : (n : ℕ) → ℤ → Bool
in_range n (pos k) = ltb k n
in_range n (negsuc k) = false

-- The loops of `io_list_to_array`: `card_io_count`, by the ids of the cards, ...
unfoldable pub count_io : (n_cards : ℕ) → List IoNode → (ℕ → ℕ) → Option (ℕ → ℕ)
unfolding update
count_io n_cards [] count = some count
count_io n_cards (n ∷ l) count =
    if in_range n_cards n.card_id
    then count_io n_cards l (update count (pos_part n.card_id) (count (pos_part n.card_id) + 1))
    else none

-- ... the arrays of the devices, by their places, ...
unfoldable pub allocate_io : (rounds i : ℕ) → (ℕ → ℕ) → Devices → Option Devices
unfolding update
allocate_io zero i count ds = some ds
allocate_io (suc k) i count ds = ds i >>= λ d.
    allocate_io k (suc i) count (update ds i (some (record d { room = count i; io_devices = [] })))

-- ... and the entries.
unfoldable pub put_io : IoDevice → ℤ → Devices → Option Devices
unfolding update
put_io x (negsuc i) ds = none
put_io x (pos i) ds = ds i >>= λ d.
    if ltb (length d.io_devices) d.room
    then some (update ds i (some (record d { io_devices = d.io_devices ++ (x ∷ []) })))
    else none

unfoldable pub place_io : (n_cards : ℕ) → List IoNode → Devices → Option Devices
unfolding get_index_from_card_id put_io
place_io n_cards [] ds = some ds
place_io n_cards (n ∷ l) ds = get_index_from_card_id ds n.card_id n_cards 0 >>= λ i.
    put_io n.io_device i ds >>= λ ds. place_io n_cards l ds

unfoldable pub io_list_to_array : List IoNode → (n_cards : ℕ) → Devices → Option Devices
unfolding count_io allocate_io place_io
io_list_to_array l n_cards ds = count_io n_cards l (λ _. 0) >>= λ count.
    allocate_io n_cards 0 count ds >>= λ ds. place_io n_cards l ds
