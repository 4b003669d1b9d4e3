-- ===== src/PyObjects/Counts.antt =====
-- How often an object in the list of backends of src/python/hiemal/_c/src/backend.c can be reached.
use hiemal.Base.{
  ℕ, zero, suc, ◌+◌, ◌<◌, ◌≡◌, refl, ap, some, List, [], ◌∷◌, length, get_elem?, set, arith, map,
}
use mathlib.Core.Option.{some-injective, none-ne-some}
use hiemal.Base.Int.{pos}
use hiemal.Str.{Str}
use hiemal.PyObjects.{
  PyBackend, PyBackendList, py_backend, count_names, make_backends, init_backends, sq_item,
  dangling, accessed, access, release, decref,
}

count_names-eq : (names : List Str) (n : ℕ) → count_names names n ≡ n + length names
unfolding count_names
count_names-eq [] n = omega arith
count_names-eq (x ∷ xs) n = omega (arith, count_names-eq xs (n + 1))

make_backends-eq : (names : List Str) → make_backends (length names) names ≡ map py_backend names
unfolding make_backends
make_backends-eq [] = refl
make_backends-eq (x ∷ xs) = ap (λ bs. py_backend x ∷ bs) (make_backends-eq xs)

pub init_backends-eq :
    (names : List Str)
    → init_backends names ≡ record { backends = map py_backend names; n_items = length names }
unfolding init_backends
init_backends-eq names =
    let e : count_names names 0 ≡ length names = omega (arith, count_names-eq names 0) in
    rw (e, make_backends-eq names) refl

get_elem?-map :
    (names : List Str) (i : ℕ) (name : Str)
    → get_elem? names i ≡ some name
    → get_elem? (map py_backend names) i ≡ some (py_backend name)
get_elem?-map [] i name e = absurd (none-ne-some _ e)
get_elem?-map (x ∷ xs) zero name e = ap (λ y. some (py_backend y)) (some-injective x name e)
get_elem?-map (x ∷ xs) (suc i) name e = get_elem?-map xs i name e

get_elem?-set :
    {A : Type 0} (xs : List A) (i : ℕ) (a b : A)
    → get_elem? xs i ≡ some a
    → get_elem? (set xs i b) i ≡ some b
get_elem?-set [] i a b e = absurd (none-ne-some _ e)
get_elem?-set (x ∷ xs) zero a b e = refl
get_elem?-set (x ∷ xs) (suc i) a b e = get_elem?-set xs i a b e

get_elem?-lt :
    (names : List Str) (i : ℕ) (name : Str) → get_elem? names i ≡ some name → i < length names
get_elem?-lt [] i name e = absurd (none-ne-some _ e)
get_elem?-lt (x ∷ xs) zero name e = omega arith
get_elem?-lt (x ∷ xs) (suc i) name e = omega (arith, get_elem?-lt xs i name e)

sq_item-inside : (n i : ℕ) → i < n → sq_item n (pos i) ≡ some i
unfolding sq_item
sq_item-inside n i lt = ground arith

access-eq :
    (l : PyBackendList) (i : ℕ) (b : PyBackend)
    → sq_item l.n_items (pos i) ≡ some i
    → get_elem? l.backends i ≡ some b
    → access l (pos i) ≡ release l i b
unfolding access
access-eq l i b e q = ground (arith, e, q)

-- In the list of backends that `init_backends` makes of names, the first access to a backend, at an index
-- within the list, finds its name and releases the only reference to it, so that every further access to
-- it finds a freed object.
pub access-dangles :
    (names : List Str) (i : ℕ) (name : Str)
    → get_elem? names i ≡ some name
    → (l : PyBackendList) × (access (init_backends names) (pos i) ≡ accessed name l)
      × (access l (pos i) ≡ dangling)
access-dangles names i name e =
    let here = get_elem?-map names i name e in
    let l : PyBackendList = record {
      backends = set (map py_backend names) i (decref (py_backend name));
      n_items = length names;
    } in
    let inside = sq_item-inside (length names) i (get_elem?-lt names i name e) in
    (
      l,
      rw (init_backends-eq names) (
          access-eq (record { backends = map py_backend names; n_items = length names }) i
            (py_backend name) inside here),
      access-eq l i (decref (py_backend name)) inside (
          get_elem?-set (map py_backend names) i (py_backend name) (decref (py_backend name)) here),
    )
