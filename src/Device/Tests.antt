-- ===== src/Device/Tests.antt =====
-- The theorems on default devices at the server of Pulse/Tests.
use hiemal.Pulse.Listing.{IsAnswering}
use hiemal.Base.{◌≡◌, refl, none, some, [], ◌∷◌}
use hiemal.Base.Int.{pos}
use hiemal.Str.{eq_str, str_in_arr}
use hiemal.Pulse.{playback}
use hiemal.Pulse.Server.{Backend, ServerInfo, pulseaudio}
use hiemal.Pulse.Tests.{cards, sources, sinks, server, server-IsAnswering}
use hiemal.Device.{hm_backend_init, default_device_io_connect}
use hiemal.Device.Defaults.{default_device_io_connect-faults}

abbrev other_info : ServerInfo
other_info = record { default_sink_name = 9 ∷ []; default_source_name = 9 ∷ [] }

overwritten : IsAnswering (record server { left = some other_info }) cards sources sinks other_info
overwritten = record {
  counted = refl;
  listed = refl;
  source_list = refl;
  sink_list = refl;
  left = refl;
  few = server-IsAnswering.few;
  few_io = server-IsAnswering.few_io;
  consecutive = server-IsAnswering.consecutive;
  sources_on = server-IsAnswering.sources_on;
  sinks_on = server-IsAnswering.sinks_on;
}

-- A server whose information has been overwritten
default_device_io_connect-faults_example :
    (b : Backend) × (hm_backend_init pulseaudio (record server { left = some other_info })
      ≡ some (pos 0, some b))
    × (default_device_io_connect b playback ≡ none)
unfolding str_in_arr eq_str
default_device_io_connect-faults_example =
    default_device_io_connect-faults (record server { left = some other_info }) cards sources sinks
      other_info overwritten refl refl
