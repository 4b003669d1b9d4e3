-- ===== src/Pulse/Tests.antt =====
-- A server with two cards, and the theorems of src/core/pulse.c on its answers.
use hiemal.Base.{replicate, length-replicate, Bytes, map, ℕ, ◌≡◌, refl, some, List, [], ◌∷◌, arith}
use hiemal.Base.Int.{pos}
use hiemal.Pulse.State.{
  pending, ready, signalled, enters, hm_pulse_bytes_readable, hm_pulse_bytes_writable,
}
use hiemal.Pulse.Ready.{bytes_readable-ready}
use hiemal.Pulse.{Devices}
use hiemal.Pulse.Server.{CardInfo, IoInfo, ServerInfo, PaServer, Backend, hm_pulse_connection_init}
use hiemal.Pulse.Listing.{answers, io_nodes, IsAnswering, IsListed, hm_pulse_connection_init-lists}
use hiemal.Io.Tests.{ring5, empty5, ring5-IsIdle, empty5-IsIdle}
use hiemal.Pulse.Transfer.{Played, Recorded, bytes, hm_pulse_io_write, hm_pulse_io_read}
use hiemal.Pulse.Delivery.{IsPlayed, hm_pulse_io_write-plays}
use hiemal.Base.Pieces.{concat, total}
use hiemal.Pulse.Fragments.{IsRecorded, hm_pulse_io_read-records}

abbrev pub cards : List CardInfo
cards = record { name = 1 ∷ []; index = 0 } ∷ record { name = 2 ∷ []; index = 1 } ∷ []

abbrev pub sources : List IoInfo
sources = record { name = 3 ∷ []; card = 1 } ∷ []

abbrev pub sinks : List IoInfo
sinks = record { name = 4 ∷ []; card = 0 } ∷ record { name = 5 ∷ []; card = 1 } ∷ []

abbrev pub left_info : ServerInfo
left_info = record { default_sink_name = 5 ∷ []; default_source_name = 3 ∷ [] }

abbrev pub server : PaServer
server = record {
  counted = answers cards;
  cards = answers cards;
  sources = answers sources;
  sinks = answers sinks;
  left = some left_info;
}

pub server-IsAnswering : IsAnswering server cards sources sinks left_info
server-IsAnswering = record {
  counted = refl;
  listed = refl;
  source_list = refl;
  sink_list = refl;
  left = refl;
  few = omega arith;
  few_io = omega arith;
  consecutive = (refl, (refl, tt));
  sources_on = (omega arith, tt);
  sinks_on = (omega arith, (omega arith, tt));
}

hm_pulse_connection_init-lists_example :
    (b : Backend) × (hm_pulse_connection_init server ≡ some b)
    × IsListed left_info 2 (io_nodes sources sinks) b
hm_pulse_connection_init-lists_example =
    hm_pulse_connection_init-lists server cards sources sinks left_info server-IsAnswering

-- One card, whose index is 1 since another was unplugged
abbrev card1 : Devices
card1 _ = some (record { name = 2 ∷ []; pulse_card_id = pos 1; room = 0; io_devices = [] })

-- Three bytes in the ring, for which the server has room in two parts
hm_pulse_io_write-plays_example :
    (p : Played) × (hm_pulse_io_write (λ n. replicate n 0) (2 ∷ 0 ∷ 4 ∷ []) ring5 8 ≡ some p)
    × IsPlayed ring5 3 p
unfolding total
hm_pulse_io_write-plays_example =
    hm_pulse_io_write-plays (λ n. replicate n 0) (λ n. length-replicate {A = ℕ} n 0)
      (2 ∷ 0 ∷ 4 ∷ []) 8 ring5-IsIdle (omega arith)

-- Five bytes asked of fragments of two, none and four
abbrev pieces : List Bytes
pieces = (1 ∷ 2 ∷ []) ∷ [] ∷ (3 ∷ 4 ∷ 5 ∷ 6 ∷ []) ∷ (7 ∷ []) ∷ []

hm_pulse_io_read-records_example :
    (r : Recorded) × (hm_pulse_io_read (map bytes pieces) empty5 5 ≡ some r)
    × IsRecorded pieces empty5 0 5 r
unfolding concat
hm_pulse_io_read-records_example = hm_pulse_io_read-records pieces 5 empty5-IsIdle (omega arith)

-- A stream that another callback's signal does not make ready
bytes_readable-ready_example :
    (hm_pulse_bytes_readable (λ k. 1) pending (signalled ∷ enters pending ∷ enters ready ∷ []) 4096
      ≡ some 4096)
    × (hm_pulse_bytes_writable
          (λ k. 1)
          pending
          (signalled ∷ enters pending ∷ enters ready ∷ [])
          4096
        ≡ some 4096)
bytes_readable-ready_example =
    bytes_readable-ready (λ k. 1) pending (signalled ∷ enters pending ∷ enters ready ∷ []) 4096 refl
