-- ===== src/PyObjects.antt =====
-- The list of backends and the list of devices of src/python/hiemal/_c/src/backend.c and device.c, as objects
-- of CPython with their reference counts. A string that is formatted is the list of its characters.
pub mod Counts
pub mod Text
mod Tests
use hiemal.Base.{
  ℕ, zero, suc, ◌+◌, ◌-◌, Option, none, some, List, [], ◌∷◌, ◌++◌, get_elem?, set, leb, ◌==◌,
  if◌then◌else◌,
}
use hiemal.Base.Int.{ℤ, pos, negsuc}
use hiemal.Str.{Str}

-- `struct PyHmBackendObject`; an object whose count is 0 has been freed.
pub record PyBackend : Type 0 where
  pub name : Str
  pub refs : ℕ

-- `struct PyHmBackendListObject`
pub record PyBackendList : Type 0 where
  pub backends : List PyBackend
  pub n_items : ℕ

-- `PyObject_Vectorcall` of the type returns a new reference.
abbrev pub py_backend : Str → PyBackend
py_backend name = record { name = name; refs = 1 }

-- The loop of `init_backends` that counts the names before the null pointer
unfoldable pub count_names : List Str → ℕ → ℕ
count_names [] n = n
count_names (x ∷ xs) n = count_names xs (n + 1)

-- The loop that makes an object of each
unfoldable pub make_backends : (rounds : ℕ) → List Str → List PyBackend
make_backends zero names = []
make_backends (suc k) [] = []
make_backends (suc k) (x ∷ xs) = py_backend x ∷ make_backends k xs

unfoldable pub init_backends : List Str → PyBackendList
unfolding count_names make_backends
init_backends names =
    let n = count_names names 0 in record { backends = make_backends n names; n_items = n }

-- The place of the object that is returned, without a new reference to it; `none` is an `IndexError`.
-- The list of devices does the same.
unfoldable pub sq_item : (n_items : ℕ) → ℤ → Option ℕ
sq_item n_items (pos i) = if leb n_items i then none else some i
sq_item n_items (negsuc i) = none

-- What becomes of `backends[i]` in a program of Python, which releases the reference that it was given
pub data Accessed : Type 0 where
  index_error : Accessed
  dangling : Accessed  -- the object had been freed
  accessed : Str → PyBackendList → Accessed

-- `Py_DECREF`
abbrev pub decref : PyBackend → PyBackend
decref b = record b { refs = b.refs - 1 }

abbrev pub release : PyBackendList → ℕ → PyBackend → Accessed
release l i b =
    if b.refs == 0
    then dangling
    else accessed b.name (record l { backends = set l.backends i (decref b) })

unfoldable pub access : PyBackendList → ℤ → Accessed
unfolding sq_item
access l idx = elim (sq_item l.n_items idx) [
  | none ↦ index_error
  | some i ↦ elim (get_elem? l.backends i) [ none ↦ dangling | some b ↦ release l i b ]
]

-- "BackendList(["
abbrev pub list_text : Str
list_text = 66 ∷ 97 ∷ 99 ∷ 107 ∷ 101 ∷ 110 ∷ 100 ∷ 76 ∷ 105 ∷ 115 ∷ 116 ∷ 40 ∷ 91 ∷ []

-- "BackendList([])"
abbrev pub empty_list_text : Str
empty_list_text = list_text ++ 93 ∷ 41 ∷ []

-- "],default="
abbrev pub default_text : Str
default_text = 93 ∷ 44 ∷ 100 ∷ 101 ∷ 102 ∷ 97 ∷ 117 ∷ 108 ∷ 116 ∷ 61 ∷ []

abbrev pub comma : Str
comma = 44 ∷ []

-- ")"
abbrev pub close_text : Str
close_text = 41 ∷ []

-- The loop of `hm_backend_BackendList_tp_str`
unfoldable pub append_names : (itr n_items : ℕ) → List PyBackend → Str
append_names itr n [] = []
append_names itr n (b ∷ bs) =
    b.name ++ (if itr == n - 1 then [] else comma) ++ append_names (itr + 1) n bs

-- `none` is a null pointer that is followed.
unfoldable pub backend_list_str : PyBackendList → Option Str
unfolding append_names
backend_list_str l = if l.n_items == 0 then some empty_list_text else elim l.backends [
  | [] ↦ none
  | b ∷ bs ↦
      some
        (list_text ++ append_names 0 l.n_items l.backends ++ default_text ++ b.name ++ close_text)
]

-- "Backend(name="
abbrev pub backend_text : Str
backend_text = 66 ∷ 97 ∷ 99 ∷ 107 ∷ 101 ∷ 110 ∷ 100 ∷ 40 ∷ 110 ∷ 97 ∷ 109 ∷ 101 ∷ 61 ∷ []

unfoldable pub backend_str : PyBackend → Str
backend_str b = backend_text ++ b.name ++ close_text
