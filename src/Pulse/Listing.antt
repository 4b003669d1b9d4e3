-- ===== src/Pulse/Listing.antt =====
-- What `hm_pulse_connection_init` of src/core/pulse.c makes of a server's answers.
use hiemal.Base.{
  ℕ, suc, ◌+◌, ◌^◌, ◌<◌, ◌≡◌, refl, ap, sym, ◌∙◌, none, some, List, [], ◌∷◌, ◌++◌, length, map,
  arith, append_assoc, append-nil, true, ltb, length-append, length-map,
}
use hiemal.Base.Int.{pos}
use native.Mathlib.Decide.{ℕ_discrete}
use hiemal.Pulse.{
  playback, recording, hm_pulse_io_read, hm_pulse_io_write, IoNode, Device, Devices, update, to_int,
  get_dev_io_id,
}
use hiemal.Pulse.Server.{
  Call, CardInfo, IoInfo, run_calls, hm_pulse_n_cards_cb, hm_pulse_card_list_cb,
  hm_pulse_source_list_cb, hm_pulse_sink_list_cb, ServerInfo, PaServer, Backend, pulseaudio,
  to_unsigned, hm_pulse_n_cards, hm_pulse_connection_init,
}
use hiemal.Pulse.Connecting.{IsIdOf, get_dev_io_id-IsIdOf}
use hiemal.Pulse.Cards.{
  OnCards, IsNumbered, Holds, of_card, update-same, update-other, io_list_to_array-sorts,
}

-- The calls that list some items: one for each, and one for the end
abbrev pub answers : {A : Type 0} → List A → List (Call A)
answers [] = record { eol = pos 1; item = none } ∷ []
answers (x ∷ xs) = record { eol = pos 0; item = some x } ∷ answers xs

-- The nodes made for a source and for a sink
abbrev pub source_node : IoInfo → IoNode
source_node i = record {
  io_device = record {
    name = i.name;
    type = recording;
    read_fn = some hm_pulse_io_read;
    write_fn = none;
  };
  card_id = to_int i.card;
}

abbrev pub sink_node : IoInfo → IoNode
sink_node i = record {
  io_device = record {
    name = i.name;
    type = playback;
    read_fn = none;
    write_fn = some hm_pulse_io_write;
  };
  card_id = to_int i.card;
}

-- The cards have consecutive indices.
abbrev pub Consecutive : (i : ℕ) → List CardInfo → Type 0
Consecutive i [] = Unit {0}
Consecutive i (c ∷ cs) = (c.index ≡ i) × Consecutive (suc i) cs

-- The cards of the io devices are among the first `n`.
abbrev pub OfCards : (n : ℕ) → List IoInfo → Type 0
OfCards n [] = Unit {0}
OfCards n (x ∷ xs) = (x.card < n) × OfCards n xs

-- A server that lists its cards, sources and sinks without an error; the cards are numbered from 0, and every
-- source and sink is on one of them; `info` is what can still be read behind the pointer to its information.
pub record IsAnswering (p : PaServer) (cards : List CardInfo) (sources sinks : List IoInfo)
    (info : ServerInfo) : Type 0 where
  pub counted : p.counted ≡ answers cards
  pub listed : p.cards ≡ answers cards
  pub source_list : p.sources ≡ answers sources
  pub sink_list : p.sinks ≡ answers sinks
  pub left : p.left ≡ some info
  pub few : length cards < 2 ^ 31
  pub few_io : length sources + length sinks < 2 ^ 31
  pub consecutive : Consecutive 0 cards
  pub sources_on : OfCards (length cards) sources
  pub sinks_on : OfCards (length cards) sinks

n_cards-counts :
    (cs : List CardInfo) (i : ℕ)
    → run_calls hm_pulse_n_cards_cb (answers cs) i ≡ some (i + length cs)
unfolding run_calls hm_pulse_n_cards_cb
n_cards-counts [] i = ap some (omega arith)
n_cards-counts (c ∷ cs) i = n_cards-counts cs (suc i) ∙ ap some (omega arith)

sources-appended :
    (xs : List IoInfo) (l : List IoNode)
    → run_calls hm_pulse_source_list_cb (answers xs) l ≡ some (l ++ map source_node xs)
unfolding run_calls hm_pulse_source_list_cb
sources-appended [] l = ap some (sym (append-nil l))
sources-appended (x ∷ xs) l =
    sources-appended xs (l ++ (source_node x ∷ []))
    ∙ ap some (append_assoc l (source_node x ∷ []) (map source_node xs))

sinks-appended :
    (xs : List IoInfo) (l : List IoNode)
    → run_calls hm_pulse_sink_list_cb (answers xs) l ≡ some (l ++ map sink_node xs)
unfolding run_calls hm_pulse_sink_list_cb
sinks-appended [] l = ap some (sym (append-nil l))
sinks-appended (x ∷ xs) l =
    sinks-appended xs (l ++ (sink_node x ∷ []))
    ∙ ap some (append_assoc l (sink_node x ∷ []) (map sink_node xs))

cards-IsNumbered :
    (cs : List CardInfo) (i n : ℕ) (ds : Devices)
    → n < 2 ^ 31
    → i + length cs ≡ n
    → Consecutive i cs
    → IsNumbered i ds
    → (ds' : Devices) × (run_calls hm_pulse_card_list_cb
          (answers cs)
          (record { dev = ds; size = n; dev_i = i })
        ≡ some (record { dev = ds'; size = n; dev_i = n }))
      × IsNumbered n ds'
unfolding run_calls hm_pulse_card_list_cb
cards-IsNumbered [] i n ds small e con num =
    let e' : i ≡ n = omega arith in (ds, rw e' refl, rw (sym e') num)
cards-IsNumbered (c ∷ cs) i n ds small e (eq, con) num =
    let d : Device = record {
      name = c.name;
      pulse_card_id = to_int c.index;
      room = 0;
      io_devices = [];
    } in
    let id : d.pulse_card_id ≡ pos i = ground (arith, eq) in
    let room : ltb i n ≡ true = ground arith in
    let (ds', e', num') =
      cards-IsNumbered cs (suc i) n (update ds i (some d)) small (omega arith) con (λ j lt.
        elim (ℕ_discrete j i) [
          | yes h ↦ (d, rw h (update-same ds i (some d)), rw h id)
          | no ne ↦
              let (d', at, id') = num j (omega arith) in
              (d', update-other ds i j (some d) ne ∙ at, id')
        ]) in
    (ds', rw room e', num')

OnCards-map :
    (n : ℕ) (node : IoInfo → IoNode) (xs : List IoInfo)
    → n < 2 ^ 31
    → ((x : IoInfo) → (node x).card_id ≡ to_int x.card)
    → OfCards n xs
    → (l : List IoNode) → OnCards n l
    → OnCards n (map node xs ++ l)
unfolding OnCards
OnCards-map n node [] small ids on l rest = rest
OnCards-map n node (x ∷ xs) small ids (lt, on) l rest =
    ((x.card, ids x ∙ ground arith, lt), OnCards-map n node xs small ids on l rest)

-- The list of io devices that the server's answers make
abbrev pub io_nodes : (sources sinks : List IoInfo) → List IoNode
io_nodes sources sinks = map source_node sources ++ map sink_node sinks

-- A connection lists the cards, with the sources and then the sinks as io devices; every card has those that are
-- on it, and the default ids are those of the first io devices with the names.
pub record IsListed (info : ServerInfo) (n : ℕ) (l : List IoNode) (b : Backend) : Type 0 where
  pub name : b.backend_name ≡ pulseaudio
  pub n_devices : b.n_devices ≡ n
  pub dev_io_list : b.dev_io_list ≡ l
  pub sorted : (j : ℕ) → j < n → Holds b.devices j (length (of_card j l)) (of_card j l)
  pub default_sink : IsIdOf l info.default_sink_name b.default_sink
  pub default_source : IsIdOf l info.default_source_name b.default_source

-- `hm_pulse_connection_init` of a server that lists its cards, sources and sinks without an error, with fewer than
-- 2^31 cards, numbered from 0, fewer than 2^31 sources and sinks, and every source and sink on one of them, and whose
-- information can still be read, gives a connection with the cards, the sources and then the sinks as its io devices, at
-- every card those that are on it in that order, and as default ids the places of the first io devices with the default
-- names that were read, or 2^32 - 1 for a name that none has.
pub hm_pulse_connection_init-lists :
    (p : PaServer) (cards : List CardInfo) (sources sinks : List IoInfo) (info : ServerInfo)
    → IsAnswering p cards sources sinks info
    → (b : Backend) × (hm_pulse_connection_init p ≡ some b)
      × IsListed info (length cards) (io_nodes sources sinks) b
unfolding hm_pulse_connection_init hm_pulse_n_cards OnCards
hm_pulse_connection_init-lists p cards sources sinks info a =
    let l = io_nodes sources sinks in
    let size : length l < 2 ^ 31 = omega (
      arith,
      a.few_io,
      length-append (map source_node sources) (map sink_node sinks),
      length-map source_node sources,
      length-map sink_node sinks,
    ) in
    let n = length cards in
    let m : run_calls hm_pulse_n_cards_cb (answers cards) 0 ≡ some n =
      n_cards-counts cards 0 ∙ ap some (omega arith) in
    let (handle, e, num) =
      cards-IsNumbered cards 0 n (λ _. none) a.few (omega arith) a.consecutive
        (λ j lt. absurd (omega arith)) in
    let on =
      OnCards-map n source_node sources a.few (λ x. refl) a.sources_on (map sink_node sinks)
        (rw (append-nil (map sink_node sinks)) at
          (OnCards-map n sink_node sinks a.few (λ x. refl) a.sinks_on [] tt)) in
    let (ds, e', sorted) = io_list_to_array-sorts (io_nodes sources sinks) n handle num on in
    (
      record {
        backend_name = pulseaudio;
        n_devices = n;
        devices = ds;
        dev_io_list = io_nodes sources sinks;
        default_sink =
            to_unsigned (get_dev_io_id (io_nodes sources sinks) info.default_sink_name 0);
        default_source =
            to_unsigned (get_dev_io_id (io_nodes sources sinks) info.default_source_name 0);
      },
      rw
          (
            a.counted,
            m,
            a.listed,
            e,
            a.source_list,
            sources-appended sources [],
            a.sink_list,
            sinks-appended sinks (map source_node sources),
            e',
            a.left,
          )
          refl,
      record {
        name = refl;
        n_devices = refl;
        dev_io_list = refl;
        sorted = sorted;
        default_sink = get_dev_io_id-IsIdOf l info.default_sink_name size;
        default_source = get_dev_io_id-IsIdOf l info.default_source_name size;
      },
    )
