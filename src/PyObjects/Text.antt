-- ===== src/PyObjects/Text.antt =====
-- The text of the list of backends of src/python/hiemal/_c/src/backend.c.
use hiemal.Base.{
  ℕ, suc, ◌+◌, ◌-◌, ◌≡◌, refl, ap, ◌∙◌, some, List, [], ◌∷◌, ◌++◌, length, arith, map, ◌==◌, false,
  true, append-nil,
}
use hiemal.Str.{Str}
use hiemal.PyObjects.{
  py_backend, init_backends, append_names, list_text, empty_list_text, default_text, comma,
  close_text, backend_list_str,
}
use hiemal.PyObjects.Counts.{init_backends-eq}

-- The names with commas between them
unfoldable pub joined : List Str → Str
joined [] = []
joined (x ∷ []) = x
joined (x ∷ y ∷ r) = x ++ comma ++ joined (y ∷ r)

append_names-joined :
    (names : List Str) (itr n : ℕ)
    → itr + length names ≡ n
    → append_names itr n (map py_backend names) ≡ joined names
unfolding append_names joined
append_names-joined [] itr n e = refl
append_names-joined (x ∷ []) itr n e =
    let last : (itr == n - 1) ≡ true = ground arith in rw last (append-nil (x ++ []) ∙ append-nil x)
append_names-joined (x ∷ y ∷ r) itr n e =
    let more : (itr == n - 1) ≡ false = ground arith in
    rw (more, append_names-joined (y ∷ r) (itr + 1) n (omega arith)) refl

unfoldable pub list_str : List Str → Str
unfolding joined
list_str [] = empty_list_text
list_str (x ∷ xs) = list_text ++ joined (x ∷ xs) ++ default_text ++ x ++ close_text

listed_str :
    (names : List Str)
    → backend_list_str (record { backends = map py_backend names; n_items = length names })
      ≡ some (list_str names)
unfolding backend_list_str list_str
listed_str [] = refl
listed_str (x ∷ xs) =
    let some_items : (suc (length xs) == 0) ≡ false = ground arith in
    rw some_items (
      ap (λ ys. some (list_text ++ ys ++ default_text ++ x ++ close_text))
        (append_names-joined (x ∷ xs) 0 (length (x ∷ xs)) (omega arith)))

-- The text of the list that `init_backends` makes of names: the names in order, with commas between them,
-- and the first again as the default, or the text of an empty list.
pub backend_list_str-joined :
    (names : List Str) → backend_list_str (init_backends names) ≡ some (list_str names)
backend_list_str-joined names = ap backend_list_str (init_backends-eq names) ∙ listed_str names
