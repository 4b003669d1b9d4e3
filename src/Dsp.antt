-- ===== src/Dsp.antt =====
-- src/core/dsp.c: `_buf_shift_down_64` and `_buf_shift_up_64`, which move the 64-bit items of a buffer.
pub mod Moves
pub mod RoundTrip
pub mod Samples
pub mod Shift
pub mod Sine
mod Tests
use hiemal.Base.{
  ℕ, zero, suc, ◌+◌, ◌-◌, List, length, leb, if◌then◌else◌, Bytes, byte_at, set, memcpy, replicate,
}

-- The buffer of a call: its items, and the bytes behind them, fewer than eight
pub record Area : Type 0 where
  pub items : List ℕ
  pub tail : Bytes

-- `buf[i] = buf[i + n_shift]` for the next `rounds` items
unfoldable pub down_loop : (rounds i n_shift : ℕ) → List ℕ → List ℕ
down_loop zero i n_shift xs = xs
down_loop (suc k) i n_shift xs = down_loop k (suc i) n_shift (set xs i (byte_at xs (i + n_shift)))

-- `buf[i + n_shift] = buf[i]`, from the item `rounds - 1` down to the first
unfoldable pub up_loop : (rounds n_shift : ℕ) → List ℕ → List ℕ
up_loop zero n_shift xs = xs
up_loop (suc k) n_shift xs = up_loop k n_shift (set xs (k + n_shift) (byte_at xs k))

-- A `memset` to 0 is a `memcpy` of zeros.
unfoldable pub buf_shift_down_64 : Area → (n_shift : ℕ) → Area
unfolding down_loop
buf_shift_down_64 a n_shift =
    let n_items = length a.items in
    if leb n_items n_shift
    then record { items = replicate n_items 0; tail = replicate (length a.tail) 0 }
    else record a {
      items =
          memcpy (down_loop (n_items - n_shift) 0 n_shift a.items) (n_items - n_shift)
            (replicate n_shift 0);
    }

unfoldable pub buf_shift_up_64 : Area → (n_shift : ℕ) → Area
unfolding up_loop
buf_shift_up_64 a n_shift =
    let n_items = length a.items in
    if leb n_items n_shift then record a { items = replicate n_items 0 } else record a {
      items = memcpy (up_loop (n_items - n_shift) n_shift a.items) 0 (replicate n_shift 0);
    }
