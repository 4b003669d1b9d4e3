-- ===== src/PyBuffer/Methods.antt =====
-- What the methods of the Python type of src/python/hiemal/_c/src/buffer.c do to a ring.
use hiemal.Base.{
  ℕ, ◌-◌, ◌%◌, ◌^◌, ◌≤◌, ◌<◌, ◌≡◌, refl, ap, sym, ◌∙◌, false, Option, none, some, [], ◌∷◌, ◌++◌,
  length, min, take, drop, ltb, if◌then◌else◌, ◌>>=◌, arith, Bytes, memcpy, length-take,
}
use hiemal.Base.Int.{ℤ, pos, negsuc}
use hiemal.Buffer.{Buffer, buffer_n_read_bytes, buffer_n_write_bytes}
use hiemal.Buffer.Io.{buffer_read, buffer_view, buffer_write}
use hiemal.Buffer.Valid.{
  IsRing, used, used-le, contents, length-contents, buffer_n_read_bytes-eq, buffer_n_write_bytes-eq,
}
use hiemal.Buffer.Write.{buffer_write-appends}
use hiemal.Buffer.Read.{buffer_read-takes}
use hiemal.Buffer.View.{buffer_view-window}
use hiemal.Base.Pieces.{memcpy_whole}
use hiemal.PyBuffer.{
  number, memory, PyResult, py_outcome, bytes_from, long_from, PyOutcome, py_buffer_read,
  py_buffer_peek, py_buffer_write,
}

-- `PyMem_Malloc` grants sizes from 0 on, and gives a null pointer for more than an `ssize_t` holds.
pub record IsGranting (malloc : ℤ → Option Bytes) : Type 0 where
  pub grant : (n : ℕ) → (m : Bytes) × (malloc (pos n) ≡ some m) × (length m ≡ n)
  pub refuse : (n : ℕ) → malloc (negsuc n) ≡ none

module _ (malloc : ℤ → Option Bytes) (granting : IsGranting malloc) {b : Buffer} (v : IsRing b)
    (free : b.locked ≡ false) where
  size-eq :
      (k n : ℕ)
      → n ≡ min k (used b)
      → (if ltb k (buffer_n_read_bytes b) then k else buffer_n_read_bytes b) ≡ n
  size-eq k n e = ground (arith, buffer_n_read_bytes-eq v)

  unsigned-eq : (k n : ℕ) → n ≡ min k (used b) → n % 2 ^ 32 ≡ n
  unsigned-eq k n e = omega (arith, used-le v, v.small)

  read-eq :
      (k n : ℕ) (m : Bytes)
      → n ≡ min k (used b)
      → malloc (pos n) ≡ some m
      → py_buffer_read malloc b (number (pos k) ∷ []) ≡ (
          buffer_read b (some m) n >>= λ o.
          py_outcome (bytes_from o.memory (pos n)) o.buf o.effects)
  unfolding py_buffer_read
  read-eq k n m e granted = rw (size-eq k n e, granted, unsigned-eq k n e) refl

  peek-eq :
      (k n : ℕ) (m : Bytes)
      → n ≡ min k (used b)
      → malloc (pos n) ≡ some m
      → py_buffer_peek malloc b (number (pos k) ∷ [])
        ≡ (buffer_view b m 0 n >>= λ o. py_outcome (bytes_from o.memory (pos n)) o.buf o.effects)
  unfolding py_buffer_peek
  peek-eq k n m e granted = rw (size-eq k n e, granted, unsigned-eq k n e) refl

  -- For a number from 0 on, `read` returns as many of the oldest bytes as there are, up to that number, and takes
  -- them out of the ring; `peek` returns the same and leaves the ring as it was.
  pub py_buffer_read-peek :
      (k : ℕ)
      → let n = min k (used b) in
        (o : PyOutcome) × (py_buffer_read malloc b (number (pos k) ∷ []) ≡ some o)
        × (o.result ≡ bytes_from (some (take n (contents b))) (pos n))
        × IsRing o.buf
        × (contents o.buf ≡ drop n (contents b))
        × (py_buffer_peek malloc b (number (pos k) ∷ [])
            ≡ some (record { result = o.result; buf = b; effects = [] }))
  py_buffer_read-peek k =
      let n = min k (used b) in
      let (m, e, l) = granting.grant n in
      let len : length (take n (contents b)) ≡ n =
        omega (arith, length-take n (contents b), length-contents b) in
      let (o, e', t, _) =
        buffer_read-takes (some m) n v free (let h : n ≤ length m = omega (arith, l) in h) in
      let same : min n (used b) ≡ n = omega arith in
      let copied : some (memcpy m 0 (take n (contents b))) ≡ some (take n (contents b)) =
        ap some (memcpy_whole m (take n (contents b)) (l ∙ sym len)) in
      let full : o.memory ≡ some (take n (contents b)) =
        t.given ∙ ap (λ j. some (memcpy m 0 (take j (contents b)))) same ∙ copied in
      let result : Option Bytes → PyResult = λ m. bytes_from m (pos n) in
      let view = buffer_view-window v free m 0 n (omega arith) (omega (arith, l)) (omega arith) in
      (
        record { result = result o.memory; buf = o.buf; effects = o.effects },
        read-eq k n m refl e ∙ ap (λ o. o >>= λ o. py_outcome (result o.memory) o.buf o.effects) e',
        ap result full,
        t.valid,
        t.bytes ∙ ap (λ j. drop j (contents b)) same,
        peek-eq k n m refl e
            ∙ ap (λ o. o >>= λ o. py_outcome (result o.memory) o.buf o.effects) view
            ∙ ap (λ m. py_outcome (result m) b []) (copied ∙ sym full),
      )

  -- For a negative number `read` takes out all the bytes that the ring holds and hands a null pointer and that number
  -- to `PyBytes_FromStringAndSize`.
  pub py_buffer_read-negative :
      (k : ℕ)
      → k < 2 ^ 31
      → (o : PyOutcome) × (py_buffer_read malloc b (number (negsuc k) ∷ []) ≡ some o)
        × (o.result ≡ bytes_from none (negsuc k))
        × IsRing o.buf
        × (used o.buf ≡ 0)
  unfolding py_buffer_read
  py_buffer_read-negative k lt =
      let n = 2 ^ 32 - 1 - k % 2 ^ 32 in
      let (o, e, t, _) = buffer_read-takes none n v free tt in
      (
        record { result = bytes_from o.memory (negsuc k); buf = o.buf; effects = o.effects },
        rw (granting.refuse k, e) refl,
        ap (λ m. bytes_from m (negsuc k)) t.given,
        t.valid,
        omega (arith, t.emptied, used-le v, v.small),
      )

write-eq :
    {b : Buffer} (src : Bytes) (n : ℕ)
    → IsRing b
    → n ≡ min (length src) (b.buf_len_bytes - used b)
    → py_buffer_write b (memory src ∷ [])
      ≡ (buffer_write b src n >>= λ o. py_outcome (long_from n) o.buf o.effects)
unfolding py_buffer_write
write-eq {b = b} src n v e =
    let room = buffer_n_write_bytes b in
    let size : (if ltb (length src) room then length src else room) ≡ n =
      ground (arith, buffer_n_write_bytes-eq v) in
    rw size refl

-- `write` stores as many of the bytes as there is room for behind those that the ring holds, and returns their
-- number.
pub py_buffer_write-stores :
    {b : Buffer} (src : Bytes)
    → IsRing b
    → b.locked ≡ false
    → let n = min (length src) (b.buf_len_bytes - used b) in
      (o : PyOutcome) × (py_buffer_write b (memory src ∷ []) ≡ some o)
      × (o.result ≡ long_from n)
      × IsRing o.buf
      × (o.buf.locked ≡ false)
      × (contents o.buf ≡ contents b ++ take n src)
py_buffer_write-stores {b = b} src v free =
    let n = min (length src) (b.buf_len_bytes - used b) in
    let (o, e, w, _) = buffer_write-appends src n v free (omega arith) in
    let same : min n (b.buf_len_bytes - used b) ≡ n = omega arith in
    (
      record { result = long_from n; buf = o.buf; effects = o.effects },
      write-eq src n v refl ∙ ap (λ o. o >>= λ o. py_outcome (long_from n) o.buf o.effects) e,
      refl,
      w.valid,
      w.released,
      w.bytes ∙ ap (λ j. contents b ++ take j src) same,
    )
