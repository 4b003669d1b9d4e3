-- ===== src/PyObjects/Tests.antt =====
-- A list of two backends.
use hiemal.Base.{◌≡◌, refl, List, [], ◌∷◌}
use hiemal.Base.Int.{pos}
use hiemal.Str.{Str}
use hiemal.PyObjects.{PyBackendList, init_backends, dangling, accessed, access}
use hiemal.PyObjects.Counts.{access-dangles}

-- "pa" and "alsa"
abbrev two_names : List Str
two_names = (112 ∷ 97 ∷ []) ∷ (97 ∷ 108 ∷ 115 ∷ 97 ∷ []) ∷ []

access-dangles_example :
    (l : PyBackendList) × (access (init_backends two_names) (pos 0) ≡ accessed (112 ∷ 97 ∷ []) l)
    × (access l (pos 0) ≡ dangling)
access-dangles_example = access-dangles two_names 0 (112 ∷ 97 ∷ []) refl
