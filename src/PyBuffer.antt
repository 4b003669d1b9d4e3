-- ===== src/PyBuffer.antt =====
-- The type `Buffer` of src/python/hiemal/_c/src/buffer.c, over the buffers of src/core/buffer.c. An argument is what
-- CPython makes of it, and a result is the call of CPython that makes the object returned. `none` is a call that never
-- returns, or a copy to a null pointer.
pub mod Methods
mod Tests
use hiemal.Base.{
  ℕ, zero, suc, ◌+◌, ◌-◌, ◌%◌, ◌^◌, Option, none, some, List, [], ◌∷◌, length, ltb, if◌then◌else◌,
  ◌>>=◌, Bytes,
}
use hiemal.Base.Int.{ℤ, pos, negsuc}
use hiemal.Str.{Str, eq_str}
use hiemal.Event.{Effect}
use hiemal.Buffer.{
  Buffer, BufferType, ring, linear, buffer_n_read_bytes, buffer_n_write_bytes, buffer_size,
  buffer_reset, buffer_init, buffer_copy,
}
use hiemal.Buffer.Io.{buffer_read, buffer_write, buffer_view}

-- `number`: the value of `PyNumber_AsSsize_t`. `memory`: the memory of an object with the buffer protocol. `text`: a
-- string that `PyArg_ParseTuple` takes.
pub data PyArgument : Type 0 where
  number : ℤ → PyArgument
  memory : Bytes → PyArgument
  text : Str → PyArgument
  other : PyArgument

-- `PyBytes_FromStringAndSize` of the memory, or of a null pointer, `PyLong_FromSize_t` and
-- `PyLong_FromUnsignedLong`, `Py_RETURN_NONE`, and `PyErr_SetString` with a null result
pub data PyResult : Type 0 where
  bytes_from : Option Bytes → (size : ℤ) → PyResult
  long_from : ℕ → PyResult
  py_none type_error : PyResult

pub record PyOutcome : Type 0 where
  pub result : PyResult
  pub buf : Buffer
  pub effects : List Effect

abbrev pub py_outcome : PyResult → Buffer → List Effect → Option PyOutcome
py_outcome r b fx = some (record { result = r; buf = b; effects = fx })

-- `(bytes_requested < bytes_available) ? bytes_requested : bytes_available`
abbrev pub min_ssize : ℤ → ℕ → ℤ
min_ssize (pos k) n = pos (if ltb k n then k else n)
min_ssize (negsuc k) n = negsuc k

-- `ssize_t` to `int`, and to the `unsigned int` of the parameter
abbrev pub ssize_to_unsigned : ℤ → ℕ
ssize_to_unsigned (pos k) = k % 2 ^ 32
ssize_to_unsigned (negsuc k) = 2 ^ 32 - 1 - k % 2 ^ 32

-- `malloc`: `PyMem_Malloc`, of a `size_t` that was an `ssize_t`; `none` is a null pointer.
module _ (malloc : ℤ → Option Bytes) where
  unfoldable pub py_buffer_read : Buffer → (args : List PyArgument) → Option PyOutcome
  py_buffer_read b (number z ∷ []) =
      let size = min_ssize z (buffer_n_read_bytes b) in
      buffer_read b (malloc size) (ssize_to_unsigned size) >>= λ o.
      py_outcome (bytes_from o.memory size) o.buf o.effects
  py_buffer_read b _ = py_outcome type_error b []

  unfoldable pub py_buffer_peek : Buffer → (args : List PyArgument) → Option PyOutcome
  py_buffer_peek b (number z ∷ []) =
      let size = min_ssize z (buffer_n_read_bytes b) in
      malloc size >>= λ m. buffer_view b m 0 (ssize_to_unsigned size) >>= λ o.
      py_outcome (bytes_from o.memory size) o.buf o.effects
  py_buffer_peek b _ = py_outcome type_error b []

unfoldable pub py_buffer_write : Buffer → (args : List PyArgument) → Option PyOutcome
py_buffer_write b (memory src ∷ []) =
    let room = buffer_n_write_bytes b in
    let n = if ltb (length src) room then length src else room in
    buffer_write b src n >>= λ o. py_outcome (long_from n) o.buf o.effects
py_buffer_write b _ = py_outcome type_error b []

unfoldable pub py_buffer_clear : Buffer → Option PyOutcome
py_buffer_clear b = py_outcome py_none (buffer_reset b) []

unfoldable pub py_buffer_get_bytes_readable : Buffer → PyResult
py_buffer_get_bytes_readable b = long_from (buffer_n_read_bytes b)

unfoldable pub py_buffer_get_bytes_writable : Buffer → PyResult
py_buffer_get_bytes_writable b = long_from (buffer_n_write_bytes b)

unfoldable pub py_buffer_size : Buffer → PyResult
py_buffer_size b = long_from (buffer_size b)

-- `junk` is the count that the descriptor set of a new buffer finds in its memory.
unfoldable pub py_buffer_copy : Buffer → (junk : ℕ) → Buffer
py_buffer_copy b junk = buffer_copy b junk

-- "RING" and "LINEAR"
abbrev pub ring_text : Str
ring_text = b'R' ∷ b'I' ∷ b'N' ∷ b'G' ∷ []

abbrev pub linear_text : Str
linear_text = b'L' ∷ b'I' ∷ b'N' ∷ b'E' ∷ b'A' ∷ b'R' ∷ []

-- `hm_buffer_Buffer_init`, after `PyArg_ParseTuple` has taken a number and a string; `none` is the exception.
unfoldable pub py_buffer_init : (n_bytes : ℕ) → (buffer_type : Str) → (junk : ℕ) → Option Buffer
unfolding eq_str
py_buffer_init n t junk =
    if eq_str t ring_text
    then some (buffer_init n ring junk)
    else if eq_str t linear_text
    then some (buffer_init n linear junk)
    else none
