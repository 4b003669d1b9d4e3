-- ===== src/Device/Defaults.antt =====
-- What `default_device_io_connect` of src/core/device.c connects to, after `hm_backend_init` of backend.c.
use hiemal.Base.{
  ℕ, ◌+◌, ◌-◌, ◌^◌, ◌≡◌, refl, ap, ap₂, ◌∙◌, false, none, some, List, [], ◌∷◌, length, map, arith,
  length-map, append-nil, length-append,
}
use hiemal.Base.Int.{pos}
use hiemal.Str.{Str, str_in_arr}
use hiemal.Pulse.{playback, get_dev_io_id}
use hiemal.Pulse.Server.{ServerInfo, PaServer, Backend, CardInfo, IoInfo, pulseaudio, to_unsigned}
use hiemal.Pulse.Connect.{
  Connection, new_stream, pulse_handle, connect_playback, connect_record, set_write_callback,
  set_read_callback, set_state_callback, io_node_at, hm_pulse_io_connect_by_id,
}
use hiemal.Pulse.Listing.{
  IsAnswering, io_nodes, source_node, sink_node, hm_pulse_connection_init-lists,
}
use hiemal.Pulse.Connecting.{
  IsIdOf-unique, get_dev_io_id-IsIdOf, names, get_dev_io_id-skips, io_node_at-past,
}
use hiemal.Device.{hm_backend_init, default_device_io_connect, get_backend_by_name}

-- A connection whose stream was asked to play on a sink, and then to record from it
pub record IsPlayback (sink : Str) (c : Connection) : Type 0 where
  pub type : c.type ≡ playback
  pub handle : c.backend_handle ≡ pulse_handle
  pub calls :
      c.backend_dev_io_handle
      ≡ new_stream (
          connect_playback sink
          ∷ set_write_callback
          ∷ connect_record sink
          ∷ set_read_callback
          ∷ set_state_callback
          ∷ [])

pulseaudio-found :
    (b : Backend) (id : ℕ)
    → b.backend_name ≡ pulseaudio
    → b.default_sink ≡ id
    → default_device_io_connect b playback ≡ hm_pulse_io_connect_by_id b id
unfolding default_device_io_connect get_backend_by_name
pulseaudio-found b id e e' = rw (e, e') refl

-- For a server as above, `hm_backend_init` returns 0 and `default_device_io_connect` for playback then follows a
-- null pointer, where the name of a default sink that was read is that of no source and no sink.
pub default_device_io_connect-faults :
    (p : PaServer) (cards : List CardInfo) (sources sinks : List IoInfo) (info : ServerInfo)
    → IsAnswering p cards sources sinks info
    → str_in_arr info.default_sink_name (names sources) ≡ false
    → str_in_arr info.default_sink_name (names sinks) ≡ false
    → (b : Backend) × (hm_backend_init pulseaudio p ≡ some (pos 0, some b))
      × (default_device_io_connect b playback ≡ none)
unfolding hm_backend_init get_backend_by_name hm_pulse_io_connect_by_id get_dev_io_id
default_device_io_connect-faults p cards sources sinks info a other absent =
    let sink = info.default_sink_name in
    let (b, e, listed) = hm_pulse_connection_init-lists p cards sources sinks info a in
    let l = io_nodes sources sinks in
    let size : length l ≡ length sources + length sinks =
      length-append (map source_node sources) (map sink_node sinks)
      ∙ ap₂ (λ m n. m + n) (length-map source_node sources) (length-map sink_node sinks) in
    let id : b.default_sink ≡ 2 ^ 32 - 1 =
      IsIdOf-unique l sink b.default_sink (to_unsigned (get_dev_io_id l sink 0)) listed.default_sink
        (get_dev_io_id-IsIdOf l sink (omega (arith, size, a.few_io)))
      ∙ ap to_unsigned (
          get_dev_io_id-skips source_node (λ x. refl) sink sources (map sink_node sinks) 0 other
          ∙ rw (append-nil (map sink_node sinks)) at (
              get_dev_io_id-skips sink_node (λ x. refl) sink sinks [] (0 + length sources)
                absent)) in
    let node : io_node_at b.dev_io_list (2 ^ 32 - 1) ≡ none =
      ap (λ l. io_node_at l (2 ^ 32 - 1)) listed.dev_io_list
      ∙ io_node_at-past (io_nodes sources sinks) (2 ^ 32 - 1) (omega (arith, size, a.few_io)) in
    (b, rw e refl, pulseaudio-found b (2 ^ 32 - 1) listed.name id ∙ rw node refl)
