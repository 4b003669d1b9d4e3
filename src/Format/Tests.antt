-- ===== src/Format/Tests.antt =====
-- A conversion of samples that stands in for floating point.
use hiemal.Base.{refl, [], ◌∷◌, Bytes, get_or}
use hiemal.Format.{f32le, Signature, Floats, format_default}

-- The bytes of a sample with two bytes of 0 behind it, and back
abbrev pub widen : Bytes → Bytes
widen x = get_or x 0 0 ∷ get_or x 1 0 ∷ 0 ∷ 0 ∷ []

abbrev pub narrow : Bytes → Bytes
narrow x = get_or x 0 0 ∷ get_or x 1 0 ∷ []

abbrev pub padding : Floats
padding = record {
  s16_to_f32 = widen;
  f32_to_s16 = narrow;
  of_count = λ n. n;
  length-s16_to_f32 = λ x. refl;
  length-f32_to_s16 = λ x. refl;
}

abbrev pub floats : Signature
floats = record format_default { sample_format = f32le }
