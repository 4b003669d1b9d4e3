-- ===== src/Kwargs.antt =====
-- `next_arg` and `kwargs_unpack` of src/core/common.c: keyword arguments, unpacked by a format such as
-- "(a;ph;)arg;dt_freq;". A pointer into a string is the rest of the string, without its terminator.
pub mod Scan
pub mod Reference
mod Tests
use hiemal.Base.{
  ℕ, zero, suc, ◌+◌, Bool, true, false, not, ◌&&◌, ◌||◌, Option, none, some, List, [], ◌∷◌, leb,
  take, ◌==◌, if◌then◌else◌,
}
use hiemal.Base.Int.{ℤ, pos, negsuc, ltb_ℤ}
use hiemal.Str.{Str, eq_str}

-- `isvarchar`: letters and digits, as `isalnum` has them in the C locale, and '_'
unfoldable pub isvarchar : ℕ → Bool
isvarchar c =
    leb b'0' c && leb c b'9' || leb b'A' c && leb c b'Z' || leb b'a' c && leb c b'z' || c == b'_'

-- `*optional` after a character that is compared with `delim_opt`
unfoldable pub mark : (delim_opt : ℕ × ℕ) → ℕ → Bool → Bool
mark d c optional = if c == d.0 then true else if c == d.1 then false else optional

-- What `next_arg` returns and stores; a null pointer is `none`.
pub record NextArg : Type 0 where
  pub next : Option Str
  pub arglen : ℤ
  pub optional : Bool

-- The first loop goes on to a character of a name; `none` is a read past the terminator.
unfoldable pub skip_to : (delim_opt : ℕ × ℕ) → Str → Bool → Option NextArg
unfolding isvarchar mark
skip_to d [] optional = none
skip_to d (c ∷ s) optional =
    let rest = skip_to d s (mark d c optional) in
    if isvarchar c
    then some (record { next = some (c ∷ s); arglen = negsuc 0; optional = optional })
    else rest

-- The length of a name
unfoldable pub name_length : (delim : ℕ) → Str → ℕ
unfolding isvarchar
name_length delim [] = 0
name_length delim (c ∷ s) =
    let rest = name_length delim s in if isvarchar c && not (c == delim) then suc rest else 0

-- The second loop stops at the terminator; `last_arg` holds where no character of a name is left.
unfoldable pub has_name : Str → Bool
unfolding isvarchar
has_name [] = false
has_name (c ∷ s) = isvarchar c || has_name s

unfoldable pub skip_past : (delim_opt : ℕ × ℕ) → Str → Bool → Str × Bool
unfolding isvarchar mark
skip_past d [] optional = ([], optional)
skip_past d (c ∷ s) optional =
    let rest = skip_past d s (mark d c optional) in if isvarchar c then (c ∷ s, optional) else rest

abbrev drop_name : ℕ → Str → Str
drop_name zero s = s
drop_name (suc n) [] = []
drop_name (suc n) (c ∷ s) = drop_name n s

-- The branch at a name
unfoldable pub read_name : (delim : ℕ) → (delim_opt : ℕ × ℕ) → Str → Bool → NextArg
unfolding name_length skip_past has_name
read_name delim d s optional =
    let n = name_length delim s in
    let r = skip_past d (drop_name n s) optional in
    record { next = if has_name r.0 then some r.0 else none; arglen = pos n; optional = r.1 }

abbrev starts_name : Str → Bool
starts_name [] = false
starts_name (c ∷ s) = isvarchar c

-- `SET_DEFAULT_ARG`: a 0 stands for ';', and a null pointer for "()".
unfoldable pub next_arg : Str → (delim : ℕ) → (delim_opt : Option (ℕ × ℕ)) → Bool → Option NextArg
unfolding isvarchar skip_to read_name
next_arg s delim delim_opt optional =
    let delim = if delim == 0 then b';' else delim in
    let d : ℕ × ℕ = elim delim_opt [ none ↦ (b'(', b')') | some d ↦ d ] in
    if starts_name s then some (read_name delim d s optional) else skip_to d s optional

-- `returned`: the code, and what is behind the variable arguments, in order. `fault`: a read past the end of the
-- format, or an argument that was not passed.
pub data Unpacked (V : Type 0) : Type 0 where
  returned : (code : ℤ) → List V → Unpacked V
  fault running : Unpacked V

module _ {V : Type 0} where
  -- The value behind a pointer that the loop is done with
  abbrev pub behind : V → Unpacked V → Unpacked V
  behind v (returned code vs) = returned code (v ∷ vs)
  behind v fault = fault
  behind v running = running

  -- The search of the names for a key
  unfoldable pub find_arg : Str → (kwargs : List (Str × V)) → Option V
  unfolding eq_str
  find_arg key [] = none
  find_arg key ((name, v) ∷ kwargs) =
      let rest = find_arg key kwargs in if eq_str key name then some v else rest

  -- The body of the loop at a key of `arglen` characters: the key is looked up, or passed over where it is
  -- optional; `go_on` is the rest of the loop.
  unfoldable pub unpack_key :
      List (Str × V)
      → Str
      → (opt : Bool) → (arglen : ℕ) → List V
      → (List V → Unpacked V)
      → Unpacked V
  unfolding find_arg
  unpack_key kwargs fmt opt arglen [] go_on = fault
  unpack_key kwargs fmt opt arglen (v ∷ vars) go_on = elim (find_arg (take arglen fmt) kwargs) [
    | some w ↦ behind w (go_on vars)
    | none ↦ if opt then behind v (go_on vars) else returned (negsuc 0) (v ∷ vars)
  ]

  -- The loop of `kwargs_unpack`, from a place in the format
  unfoldable pub unpack_loop :
      (fuel : ℕ) → (kwargs : List (Str × V)) → Str → (opt : Bool) → List V → Unpacked V
  unfolding next_arg unpack_key
  unpack_loop zero kwargs fmt opt vars = running
  unpack_loop (suc k) kwargs fmt opt vars = elim (next_arg fmt b';' none opt) [
    | none ↦ fault
    | some a ↦
        let go_on : List V → Unpacked V = λ vars. elim a.next [
          | none ↦ returned (pos 0) vars
          | some fmt' ↦ unpack_loop k kwargs fmt' a.optional vars
        ] in
        elim a.arglen [
          | negsuc n ↦ go_on vars
          | pos zero ↦ go_on vars
          | pos (suc n) ↦ unpack_key kwargs fmt opt (suc n) vars go_on
        ]
  ]

  -- `kwargs_unpack`, with the values behind the variable arguments
  unfoldable pub kwargs_unpack : (fuel : ℕ) → List (Str × V) → Str → List V → Unpacked V
  unfolding unpack_loop
  kwargs_unpack fuel kwargs fmt vars = unpack_loop fuel kwargs fmt false vars
