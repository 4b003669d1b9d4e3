-- ===== src/Buffer/Tests.antt =====
-- The cases of test/test_buffer.c, and the theorems on buffers at concrete data.
use hiemal.Base.{
  is_some, true, refl, ◌≡◌, none, some, [], ◌∷◌, memcpy, Bytes, arith, false, take, drop, List,
}
use hiemal.Base.Int.{pos, negsuc}
use mathlib.Core.Option
use hiemal.Buffer.{
  Buffer, ring, linear, normal, rbuf_linear_bytes_write, buffer_n_write_bytes, buffer_n_read_bytes,
  rbuf_linear_bytes_read, set_buffer_state,
}
use hiemal.Buffer.Descriptors.{signal_fds}
use hiemal.Buffer.Io.{
  Outcome, outcome, buffer_write, buffer_read, buffer_view, finish, rbuf_store, rbuf_write,
  rbuf_read, rbuf_fetch, rbuf_advance, signalled, wake,
}
use hiemal.Buffer.Valid.{IsRing, contents}
use hiemal.Buffer.Write.{Wrote, sent, buffer_write-appends}
use hiemal.Buffer.Read.{Took, buffer_read-takes}
use hiemal.Buffer.Refine.{run, run_refines}
use hiemal.Buffer.Queue
use hiemal.Buffer.Queue.{Op, put, get, Reply, stored, fetched}
use hiemal.Buffer.View.{buffer_view-window}
use hiemal.Buffer.Linear.{IsLinear, Rewound}
use hiemal.Buffer.Linear.Transfer as Linear
use hiemal.Event.{Event, Effect, ObjType}
use hiemal.Event.Poll.{event_poll}
use hiemal.Buffer.Waiting.{write_all, pipe_of, readable, amount, event_poll-wakes}

abbrev pub ring5 : Buffer
ring5 = record {
  mem = 0 ∷ 0 ∷ 0 ∷ 0 ∷ 0 ∷ [];
  buf_len_bytes = 5;
  read_ptr = 2;
  write_ptr = 3;
  type = ring;
  state = normal;
  ext_buf = false;
  fd_set = record { head = negsuc 0 ∷ pos 7 ∷ []; n_fds = 1 };
  fd_hold = false;
  locked = false;
  event_list = [];
}

abbrev pub bytes5 : Bytes
bytes5 = 1 ∷ 2 ∷ 3 ∷ 4 ∷ 5 ∷ []

abbrev pub full5 : Buffer
full5 = record ring5 { mem = 3 ∷ 4 ∷ 0 ∷ 1 ∷ 2 ∷ []; read_ptr = 3; write_ptr = 2 }

rbuf_write_test :
    Option.map (λ (o : Outcome). o.buf.mem) (buffer_write ring5 bytes5 5)
    ≡ some (3 ∷ 4 ∷ 0 ∷ 1 ∷ 2 ∷ [])
unfolding buffer_write rbuf_write rbuf_store finish signalled wake set_buffer_state
    buffer_n_write_bytes rbuf_linear_bytes_write memcpy signal_fds
rbuf_write_test = refl

rbuf_read_test :
    Option.map (λ (o : Outcome). o.memory) (buffer_read full5 (some (0 ∷ 0 ∷ 0 ∷ 0 ∷ [])) 8)
    ≡ some (some (1 ∷ 2 ∷ 3 ∷ 4 ∷ []))
unfolding buffer_read rbuf_read rbuf_fetch rbuf_advance finish wake set_buffer_state
    buffer_n_read_bytes rbuf_linear_bytes_read memcpy
rbuf_read_test = refl

pub ring5-IsRing : IsRing ring5
ring5-IsRing = ground arith

pub full5-IsRing : IsRing full5
full5-IsRing = ground arith

buffer_write-appends_example :
    (o : Outcome) × (buffer_write ring5 bytes5 5 ≡ some o)
    × Wrote ring5 bytes5 4 o
    × (o.effects ≡ sent ring5 5 o)
buffer_write-appends_example = buffer_write-appends bytes5 5 ring5-IsRing refl (omega arith)

buffer_read-takes_example :
    (o : Outcome) × (buffer_read full5 none 8 ≡ some o) × Took full5 none 4 o × (o.effects ≡ [])
buffer_read-takes_example = buffer_read-takes none 8 full5-IsRing refl tt

abbrev script : List Op
script = put bytes5 ∷ get 3 ∷ put bytes5 ∷ get 9 ∷ []

run_refines_example : run ring5 script ≡ some (Queue.run 5 (contents ring5) script)
run_refines_example = run_refines script ring5-IsRing refl

buffer_view-window_example :
    buffer_view full5 (9 ∷ 9 ∷ 9 ∷ []) 1 3
    ≡ some
        (outcome 3 full5 (some (memcpy (9 ∷ 9 ∷ 9 ∷ []) 0 (take 3 (drop 1 (contents full5))))) [])
buffer_view-window_example =
    buffer_view-window full5-IsRing refl (9 ∷ 9 ∷ 9 ∷ []) 1 3 (omega arith) (omega arith)
      (omega arith)

abbrev linear4 : Buffer
linear4 = record ring5 { mem = 1 ∷ 2 ∷ 3 ∷ 0 ∷ []; buf_len_bytes = 4; read_ptr = 1; type = linear }

linear4-IsLinear : IsLinear linear4
linear4-IsLinear = ground arith

linear4-Rewound : Rewound linear4
linear4-Rewound = λ e. absurd (omega arith)

buffer_write-linear_example :
    (o : Outcome) × (buffer_write linear4 bytes5 5 ≡ some o) × Linear.Wrote linear4 bytes5 1 o
buffer_write-linear_example =
    Linear.buffer_write-linear bytes5 5 linear4-IsLinear linear4-Rewound refl (omega arith)

buffer_read-linear_example :
    (o : Outcome) × (buffer_read linear4 (some (0 ∷ 0 ∷ 0 ∷ [])) 9 ≡ some o)
    × Linear.Took linear4 (some (0 ∷ 0 ∷ 0 ∷ [])) 2 o
buffer_read-linear_example =
    Linear.buffer_read-linear (some (0 ∷ 0 ∷ 0 ∷ [])) 9 linear4-IsLinear linear4-Rewound refl refl

-- Someone waits for three bytes in `ring5`, which holds one.
abbrev waiting : Event
waiting = record { obj_type = ObjType.buffer; pipe_read = pos 8; pipe_write = pos 9; cond = 0 }

abbrev watched : Buffer
watched = record ring5 { event_list = waiting ∷ [] }

watched-IsRing : IsRing watched
watched-IsRing = ground arith

event_poll-wakes_example :
    (r : Buffer × List Effect) × (write_all ((6 ∷ []) ∷ (7 ∷ 8 ∷ []) ∷ []) watched ≡ some r)
    × (is_some (event_poll waiting (readable 3) (pipe_of (pos 9) r.1) tt) ≡ true)
unfolding amount
event_poll-wakes_example =
    event_poll-wakes 3 waiting (6 ∷ []) ((7 ∷ 8 ∷ []) ∷ []) watched-IsRing refl refl refl
      (omega arith, (omega arith, tt))
