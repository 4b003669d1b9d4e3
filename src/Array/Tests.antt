-- ===== src/Array/Tests.antt =====
-- The array theorems at concrete arrays.
use hiemal.Base.{
  ℕ, ◌*◌, ◌^◌, ◌<◌, ap, sym, ◌∙◌, Option, some, [], ◌∷◌, length, arith, Bytes, byte_at, tabulate,
  length-tabulate, byte_at-tabulate,
}
use native.Mathlib.Nat.{zero-add}
use mathlib.Core.Option.{some-injective}
use hiemal.Array.{Allocator, Array}
use hiemal.Array.Valid.{IsArray, IsGranted}

-- A `realloc` that never fails, and clears what it adds
abbrev generous : Bytes → ℕ → Option Bytes
generous m n = some (tabulate n (byte_at m) 0)

abbrev pub allocator : Allocator
allocator = record {
  realloc = generous;
  realloc-length = λ m m' n e.
      ap length (sym (some-injective (tabulate n (byte_at m) 0) m' e))
      ∙ length-tabulate n (byte_at m) 0;
  realloc-kept = λ m m' n i e lt lt'.
      ap (λ m. byte_at m i) (sym (some-injective (tabulate n (byte_at m) 0) m' e))
      ∙ byte_at-tabulate n (byte_at m) 0 i lt'
      ∙ ap (byte_at m) (zero-add i);
}

abbrev pub pair : Array
pair = record { buf = 1 ∷ 2 ∷ 3 ∷ 4 ∷ []; n_items = 2; n_items_alloc = 2; item_size = 2 }

pub pair-IsArray : IsArray pair
pair-IsArray = record { fits = omega arith; area = omega arith }

pub granted : (a : Array) (n : ℕ) → n * a.item_size < 2 ^ 63 → IsGranted allocator a n
granted a n lt = record { grant = λ lt e. ground arith; small = lt }
