-- ===== src/Alsa/Laws.antt =====
-- What src/core/alsa.c counts.
use hiemal.Base.{
  ℕ, suc, ◌+◌, ◌≡◌, refl, ap, ◌∙◌, Bool, true, false, ◌&&◌, Option, none, some, List, [], ◌∷◌, ◌++◌,
  length, map, arith, ◌==◌, if◌then◌else◌,
}
use hiemal.Base.Int.{ℤ, pos, negsuc}
use hiemal.Str.{Str}
use hiemal.Alsa.{card_loop, alsa_n_cards, Ioid, input, output, Hint, pcm_of, pcm_loop, alsa_n_pcm}

card_loop-length :
    (cards : List ℕ) (n : ℕ) (rest : List ℤ)
    → card_loop n (map pos cards ++ negsuc 0 ∷ rest) ≡ some (n + length cards)
unfolding card_loop
card_loop-length [] n rest = ap some (omega arith)
card_loop-length (c ∷ cards) n rest = card_loop-length cards (n + 1) rest ∙ ap some (omega arith)

-- Whether a device of the hardware plays, and whether it records
abbrev is_hw : Str → Bool
is_hw (a ∷ b ∷ rest) = a == 104 && b == 119
is_hw _ = false

abbrev plays : Option Ioid → Bool
plays none = true
plays (some output) = true
plays (some input) = false

abbrev records : Option Ioid → Bool
records none = true
records (some output) = false
records (some input) = true

pub record Device : Type 0 where
  pub name : Str
  pub ioid : Option Ioid

abbrev pub hint_of : Device → Hint
hint_of d = record { name = some d.name; ioid = d.ioid }

unfoldable pub count : (Device → Bool) → List Device → ℕ
count p [] = 0
count p (d ∷ ds) = let rest = count p ds in if p d then suc rest else rest

abbrev pub hw_plays : Device → Bool
hw_plays d = is_hw d.name && plays d.ioid

abbrev pub hw_records : Device → Bool
hw_records d = is_hw d.name && records d.ioid

pcm_of-ways :
    (name : Str) (ioid : Option Ioid)
    → pcm_of name ioid
      ≡ (if is_hw name && plays ioid then 1 else 0) + (if is_hw name && records ioid then 1 else 0)
pcm_of-ways [] ioid = refl
pcm_of-ways (a ∷ []) ioid = refl
pcm_of-ways (a ∷ b ∷ rest) none = ground arith
pcm_of-ways (a ∷ b ∷ rest) (some input) = ground arith
pcm_of-ways (a ∷ b ∷ rest) (some output) = ground arith

pcm_loop-count :
    (ds : List Device) (n : ℕ)
    → pcm_loop n (map hint_of ds) ≡ some (n + (count hw_plays ds + count hw_records ds))
unfolding pcm_loop count
pcm_loop-count [] n = ap some (omega arith)
pcm_loop-count (d ∷ ds) n =
    pcm_loop-count ds (n + pcm_of d.name d.ioid)
    ∙ ap some (ground (arith, pcm_of-ways d.name d.ioid))

-- With libasound listing cards up to its final -1, and devices that all have a name, `hm_alsa_n_cards`
-- returns the number of the cards, and `hm_alsa_n_pcm` counts each device of the hardware once for playing and
-- once for recording, as it can do either; without a list it returns 0.
pub alsa_n_pcm-count :
    (cards : List ℕ) (rest : List ℤ) (ds : List Device)
    → (alsa_n_cards (map pos cards ++ negsuc 0 ∷ rest) ≡ some (length cards))
      × (alsa_n_pcm (some (map hint_of ds)) ≡ some (count hw_plays ds + count hw_records ds))
      × (alsa_n_pcm none ≡ some 0)
unfolding alsa_n_cards alsa_n_pcm
alsa_n_pcm-count cards rest ds = (
  card_loop-length cards 0 rest ∙ ap some (omega arith),
  pcm_loop-count ds 0 ∙ ap some (omega arith),
  refl,
)
