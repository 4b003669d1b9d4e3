-- ===== src/Buffer/Queue.antt =====
-- What a client may expect of the ring of src/core/buffer.c: a queue of at most `cap` bytes, oldest
-- first. A put stores the prefix that fits, a get delivers the oldest bytes.
use hiemal.Base.{
  ℕ, ◌-◌, Option, some, List, [], ◌∷◌, ◌++◌, Bytes, length, take, drop, min, replicate, memcpy,
}

pub data Op : Type 0 where
  put : Bytes → Op
  -- into zeroed memory of that size
  get : ℕ → Op

pub data Reply : Type 0 where
  stored : ℕ → Reply
  fetched : ℕ → Option Bytes → Reply

module _ (cap : ℕ) where
  unfoldable pub run : Bytes → List Op → List Reply
  run q [] = []
  run q (put src ∷ ops) =
      let k = min (length src) (cap - length q) in stored k ∷ run (q ++ take k src) ops
  run q (get n ∷ ops) =
      let k = min n (length q) in
      fetched k (some (memcpy (replicate n 0) 0 (take k q))) ∷ run (drop k q) ops
