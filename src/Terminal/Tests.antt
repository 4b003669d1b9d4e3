-- ===== src/Terminal/Tests.antt =====
-- A line of two characters in red.
use hiemal.Base.{[], ◌∷◌}
use hiemal.Str.{Str}

abbrev line : Str
line = 104 ∷ 105 ∷ []
