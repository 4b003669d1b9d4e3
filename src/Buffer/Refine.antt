-- ===== src/Buffer/Refine.antt =====
-- The ring of src/core/buffer.c implements the queue of `Buffer.Queue`.
use hiemal.Base.{
  ℕ, ◌-◌, ◌≡◌, refl, Option, some, List, [], ◌∷◌, ◌>>=◌, Bytes, length, min, replicate,
  length-replicate, arith, false,
}
use hiemal.Buffer.{Buffer}
use hiemal.Buffer.Io.{Outcome, buffer_write, buffer_read}
use hiemal.Buffer.Valid.{IsRing, used, contents, length-contents}
use hiemal.Buffer.Write.{Wrote, buffer_write-appends}
use hiemal.Buffer.Read.{Took, buffer_read-takes}
use hiemal.Buffer.Queue
use hiemal.Buffer.Queue.{Op, put, get, Reply, stored, fetched}

-- A client's calls, one after the other; none if one of them never returns.
pub run : Buffer → List Op → Option (List Reply)
run b [] = some []
run b (put src ∷ ops) =
    buffer_write b src (length src)
    >>= (λ o. run o.buf ops >>= (λ rest. some (stored o.code ∷ rest)))
run b (get n ∷ ops) =
    buffer_read b (some (replicate n 0)) n
    >>= (λ o. run o.buf ops >>= (λ rest. some (fetched o.code o.memory ∷ rest)))

module _ {b : Buffer} {o : Outcome} (ops : List Op) where
  run-put :
      (src : Bytes)
      → buffer_write b src (length src) ≡ some o
      → Wrote b src (min (length src) (b.buf_len_bytes - used b)) o
      → run o.buf ops ≡ some (Queue.run o.buf.buf_len_bytes (contents o.buf) ops)
      → run b (put src ∷ ops) ≡ some (Queue.run b.buf_len_bytes (contents b) (put src ∷ ops))
  unfolding run Queue.run
  run-put src e w ih = rw (e, ih, w.count, w.bytes, w.kept.len, length-contents b) refl

  run-get :
      (n : ℕ)
      → buffer_read b (some (replicate n 0)) n ≡ some o
      → Took b (some (replicate n 0)) (min n (used b)) o
      → run o.buf ops ≡ some (Queue.run o.buf.buf_len_bytes (contents o.buf) ops)
      → run b (get n ∷ ops) ≡ some (Queue.run b.buf_len_bytes (contents b) (get n ∷ ops))
  unfolding run Queue.run
  run-get n e w ih = rw (e, ih, w.count, w.bytes, w.kept.len, w.given, length-contents b) refl

-- Any sequence of writes and reads on an unlocked valid ring returns, and returns what the queue of
-- its contents returns: no call loses, repeats or reorders a byte, whatever the positions.
pub run_refines :
    (ops : List Op) {b : Buffer}
    → IsRing b
    → b.locked ≡ false
    → run b ops ≡ some (Queue.run b.buf_len_bytes (contents b) ops)
unfolding run Queue.run
run_refines [] v free = refl
run_refines (put src ∷ ops) v free =
    let (o, e, w, _) = buffer_write-appends src (length src) v free (omega arith) in
    run-put ops src e w (run_refines ops w.valid w.released)
run_refines (get n ∷ ops) v free =
    let (o, e, w, _) =
      buffer_read-takes (some (replicate n 0)) n v free
        (omega (arith, length-replicate {A = ℕ} n 0)) in
    run-get ops n e w (run_refines ops w.valid w.released)
