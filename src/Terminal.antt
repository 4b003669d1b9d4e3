-- ===== src/Terminal.antt =====
-- src/util/tty.c, which prints in colours, and src/util/file.c, which asks what a path leads to. Text is the list
-- of its characters; `vprintf` stands for what the C library makes of a format and its arguments, and a
-- path for the mode that `stat` finds of it.
pub mod Colours
mod Tests
use hiemal.Base.{
  ℕ, ◌+◌, ◌/◌, ◌%◌, Bool, true, false, ◌&&◌, Option, none, some, List, [], ◌∷◌, ◌++◌, ◌==◌,
  if◌then◌else◌, ◌>>=◌,
}
use hiemal.Str.{Str}

-- `tty_clr_t`
pub data Colour : Type 0 where
  black red green yellow blue magenta cyan white default : Colour

abbrev pub colour_code : Colour → ℕ
colour_code black = 0
colour_code red = 1
colour_code green = 2
colour_code yellow = 3
colour_code blue = 4
colour_code magenta = 5
colour_code cyan = 6
colour_code white = 7
colour_code default = 100

abbrev pub is_default : Colour → Bool
is_default c = colour_code c == 100

-- `printf("\e[%dm", ...)` of a number of two digits
abbrev pub escape : ℕ → Str
escape n = 27 ∷ 91 ∷ (48 + n / 10) ∷ (48 + n % 10) ∷ 109 ∷ []

abbrev pub print_colour : (base : ℕ) → Colour → Str
print_colour base c = if is_default c then [] else escape (colour_code c + base)

-- "\e[0m"
abbrev pub reset_text : Str
reset_text = 27 ∷ 91 ∷ 48 ∷ 109 ∷ []

abbrev pub newline : Str
newline = 10 ∷ []

-- Whether a newline was cut off the end of the format, and what is left of it; `none` is an access in front
-- of an empty format.
unfoldable pub cut_newline : Str → Option (Bool × Str)
cut_newline [] = none
cut_newline (c ∷ []) = if c == 10 then some (true, []) else some (false, c ∷ [])
cut_newline (c ∷ d ∷ r) = cut_newline (d ∷ r) >>= λ x. some (x.0, c ∷ x.1)

-- What was printed, and the format afterwards, which the caller shares
pub record Printed : Type 0 where
  pub text : Str
  pub fmt : Str

unfoldable pub printf_clr :
    (vprintf : Str → Str) (isatty : Bool) (fg bg : Colour) (fmt : Str) → Option Printed
unfolding cut_newline
printf_clr vprintf false fg bg fmt = some (record { text = vprintf fmt; fmt = fmt })
printf_clr vprintf true fg bg fmt =
    if is_default fg && is_default bg
    then some (record { text = vprintf fmt; fmt = fmt })
    else cut_newline fmt >>= λ x. some (record {
      text =
          print_colour 30 fg ++ print_colour 40 bg ++ reset_text ++ (if x.0 then newline else []);
      fmt = x.1;
    })

-- `st_mode & S_IFMT`, in units of its lowest bit; the mode is `none` where `stat` fails.
abbrev pub file_type : ℕ → ℕ
file_type st_mode = st_mode / 4096 % 16

unfoldable pub is_regular_file : Option ℕ → Bool
is_regular_file none = false
is_regular_file (some st_mode) = file_type st_mode == 8

unfoldable pub is_dir : Option ℕ → Bool
is_dir none = false
is_dir (some st_mode) = file_type st_mode == 4

unfoldable pub is_valid_path : Option ℕ → Bool
is_valid_path none = false
is_valid_path (some st_mode) = true
