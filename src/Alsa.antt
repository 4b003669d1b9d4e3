-- ===== src/Alsa.antt =====
-- src/core/alsa.c, which is compiled in a build WITH_ALSA: what it asks of libasound, whose answers are
-- arguments, and the transfers of bytes. `none` is a call that waits on, or a null pointer that is followed.
pub mod Laws
mod Tests
use hiemal.Base.{ℕ, ◌+◌, Option, none, some, List, [], ◌∷◌, ◌==◌, if◌then◌else◌, ◌>>=◌, Bytes}
use hiemal.Base.Int.{ℤ, pos, negsuc}
use hiemal.Str.{Str}
use hiemal.Event.{Effect}
use hiemal.Buffer.{Buffer}
use hiemal.Buffer.Io.{buffer_read, buffer_write}

-- The loop of `hm_alsa_n_cards`, once `n_cards` is 0: the indices that `snd_card_next` sets
unfoldable pub card_loop : (n_cards : ℕ) → List ℤ → Option ℕ
card_loop n [] = none
card_loop n (pos i ∷ rest) = card_loop (n + 1) rest
card_loop n (negsuc i ∷ rest) = if i == 0 then some n else card_loop (n + 1) rest

unfoldable pub alsa_n_cards : List ℤ → Option ℕ
unfolding card_loop
alsa_n_cards indices = card_loop 0 indices

-- "Input" and "Output"
pub data Ioid : Type 0 where
  input output : Ioid

-- What `snd_device_name_get_hint` returns of one device; `none` is a null pointer.
pub record Hint : Type 0 where
  pub name : Option Str
  pub ioid : Option Ioid

-- `strncmp(name, "hw", 2)`, and what is counted of a device where it is 0
abbrev pub pcm_of : Str → Option Ioid → ℕ
pcm_of (a ∷ b ∷ rest) ioid =
    if a == 104 then (if b == 119 then elim ioid [ none ↦ 2 | some x ↦ 1 ] else 0) else 0
pcm_of _ ioid = 0

unfoldable pub pcm_loop : (n_pcm : ℕ) → List Hint → Option ℕ
pcm_loop n [] = some n
pcm_loop n (h ∷ hints) = h.name >>= λ name. pcm_loop (n + pcm_of name h.ioid) hints

-- `snd_device_name_hint` may leave a null pointer.
unfoldable pub alsa_n_pcm : Option (List Hint) → Option ℕ
unfolding pcm_loop
alsa_n_pcm none = some 0
alsa_n_pcm (some hints) = pcm_loop 0 hints

-- The buffer afterwards, and what was sent
pub record AlsaOutcome : Type 0 where
  pub code : ℕ
  pub buf : Buffer
  pub effects : List Effect

module _ (malloc : ℕ → Bytes) where
  -- The bytes are read to memory that is freed; the call of libasound is commented out.
  unfoldable pub alsa_io_write : Buffer → (n_bytes : ℕ) → Option AlsaOutcome
  alsa_io_write b n = buffer_read b (some (malloc n)) n >>= λ o.
      some (record { code = 0; buf = o.buf; effects = o.effects })

  unfoldable pub alsa_io_read : Buffer → (n_bytes : ℕ) → Option AlsaOutcome
  alsa_io_read b n = buffer_write b (malloc n) n >>= λ o.
      some (record { code = 0; buf = o.buf; effects = o.effects })
