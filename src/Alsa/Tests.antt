-- ===== src/Alsa/Tests.antt =====
-- Two cards and two devices.
use hiemal.Base.{◌≡◌, none, some, List, [], ◌∷◌, ◌++◌, ◌+◌, map}
use hiemal.Base.Int.{pos, negsuc}
use hiemal.Alsa.{output, alsa_n_cards, alsa_n_pcm}
use hiemal.Alsa.Laws.{Device, count, hw_plays, hw_records, hint_of, alsa_n_pcm-count}

-- "hw:0" and "default"
abbrev devices : List Device
devices =
    record { name = 104 ∷ 119 ∷ 58 ∷ 48 ∷ []; ioid = none }
    ∷ record { name = 100 ∷ 101 ∷ 102 ∷ []; ioid = some output }
    ∷ []

alsa_n_pcm-count_example :
    (alsa_n_cards (map pos (0 ∷ 2 ∷ []) ++ negsuc 0 ∷ []) ≡ some 2)
    × (alsa_n_pcm (some (map hint_of devices))
        ≡ some (count hw_plays devices + count hw_records devices))
    × (alsa_n_pcm none ≡ some 0)
alsa_n_pcm-count_example = alsa_n_pcm-count (0 ∷ 2 ∷ []) [] devices
