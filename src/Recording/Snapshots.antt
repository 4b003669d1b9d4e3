-- ===== src/Recording/Snapshots.antt =====
-- What a recording holds after calls of src/core/recording.c and writes to the buffers that
-- were added.
use hiemal.Base.{
  ℕ, zero, suc, ◌≤◌, ◌<◌, ◌≡◌, ◌≢◌, refl, ap, sym, ◌∙◌, Bool, true, false, Option, none, some, List,
  [], ◌∷◌, ◌++◌, length, get_or, set, ltb, ◌==◌, ◌&&◌, if◌then◌else◌, arith, Bytes, slice,
  append-nil, append_assoc, length-append, length-set, get_or-set_self, get_or-set_ne, Bool-cases,
  inl, inr,
}
use mathlib.Core.Path.{subst}
use native.Mathlib.Decide.{ℕ_discrete}
use hiemal.Str.{Str}
use hiemal.Buffer.{Buffer}
use hiemal.Buffer.Valid.{IsRing}
use hiemal.Buffer.Write.{buffer_write-appends}
use hiemal.Recording.{
  BufList, buflist_add_buffer, pb_buffer_write, Recording, recording_init, RecordedBuffer,
  recording_buffer_add, recording_write, recorded_write, Session, SessionCall, add, write, start,
  stop, put_buffer, step, run, session_of,
}

-- The writes to the buffer `k` while the recording is active
abbrev pub heard : (k : ℕ) → (active : Bool) → List SessionCall → List Bytes
heard k active [] = []
heard k active (add b ∷ cs) = heard k active cs
heard k active (write j src n ∷ cs) =
    let rest = heard k active cs in if active && (j == k) then slice src 0 n ∷ rest else rest
heard k active (start ∷ cs) = heard k true cs
heard k active (stop ∷ cs) = heard k false cs

-- Calls that add at most ten valid, unlocked rings, counted from `m`, and write to rings that were added
abbrev pub AreCalls : (m : ℕ) → List SessionCall → Type 0
AreCalls m [] = Unit {0}
AreCalls m (add b ∷ cs) = (m < 10) × IsRing b × (b.locked ≡ false) × AreCalls (suc m) cs
AreCalls m (write k src n ∷ cs) = (k < m) × (n ≤ length src) × AreCalls m cs
AreCalls m (start ∷ cs) = AreCalls m cs
AreCalls m (stop ∷ cs) = AreCalls m cs

abbrev IsRecorded : (k : ℕ) → Option RecordedBuffer → Type 0
IsRecorded k none = ⊥
IsRecorded k (some b) = (b.r_id ≡ some k) × IsRing b.buf × (b.buf.locked ≡ false)

IsRecorded-some :
    (k : ℕ) (o : Option RecordedBuffer)
    → IsRecorded k o
    → (b : RecordedBuffer) × (o ≡ some b)
      × (b.r_id ≡ some k)
      × IsRing b.buf
      × (b.buf.locked ≡ false)
IsRecorded-some k none h = absurd h
IsRecorded-some k (some b) h = (b, refl, h.0, h.1, h.2)

-- With `m` buffers added, each is the one that its `r_id` says.
record IsSession (m : ℕ) (s : Session) : Type 0 where
  count : s.recording.n_buffer ≡ m
  room : length s.recording.buffers ≡ 10
  lists : length s.recording.buflist ≡ m
  buffers : (k : ℕ) → k < m → IsRecorded k (s.buffers k)

abbrev snapshots : Session → ℕ → List Bytes
snapshots s k = get_or s.recording.buflist k []

-- A list without snapshots behind the others
add-snapshots : (l : BufList) (k : ℕ) → get_or (buflist_add_buffer l) k [] ≡ get_or l k []
unfolding buflist_add_buffer
add-snapshots [] zero = refl
add-snapshots [] (suc k) = refl
add-snapshots (x ∷ l) zero = refl
add-snapshots (x ∷ l) (suc k) = add-snapshots l k

-- A snapshot behind those of the buffer `k`
set-snapshots :
    (l : BufList) (k j : ℕ) (x : Bytes)
    → k < length l
    → get_or (set l k (get_or l k [] ++ (x ∷ []))) j []
      ≡ get_or l j [] ++ (if k == j then x ∷ [] else [])
set-snapshots l k j x lt = elim (ℕ_discrete k j) [
  | yes e ↦
      let t : (k == j) ≡ true = ground (arith, e) in
      rw (t, sym e) (get_or-set_self l k (get_or l k [] ++ (x ∷ [])) [] lt)
  | no ne ↦
      let t : (k == j) ≡ false = ground (arith, ne) in
      rw (t, append-nil (get_or l j [])) (get_or-set_ne l k j (get_or l k [] ++ (x ∷ [])) [] ne)
]

put_buffer-IsRecorded :
    (m : ℕ) (bs : ℕ → Option RecordedBuffer) (j : ℕ) (b : RecordedBuffer)
    → IsRecorded j (some b)
    → ((k : ℕ) → k < m → k ≢ j → IsRecorded k (bs k))
    → (k : ℕ) → k < m
    → IsRecorded k (put_buffer bs j b k)
put_buffer-IsRecorded m bs j b here there k lt = elim (ℕ_discrete k j) [
  | yes e ↦
      let u : put_buffer bs j b k ≡ some b = ground (arith, e) in
      subst (IsRecorded k) (sym u) (subst (λ j. IsRecorded j (some b)) (sym e) here)
  | no ne ↦
      let u : put_buffer bs j b k ≡ bs k = ground (arith, ne) in
      subst (IsRecorded k) (sym u) (there k lt ne)
]

-- A call that ends well
record IsStepped (m : ℕ) (s s' : Session) (act : Bool) (new : ℕ → List Bytes) : Type 0 where
  valid : IsSession m s'
  active : s'.recording.active ≡ act
  snaps : (k : ℕ) → snapshots s' k ≡ snapshots s k ++ new k

module _ {m : ℕ} {s : Session} (v : IsSession m s) where
  add-steps :
      (b : Buffer)
      → m < 10
      → IsRing b
      → b.locked ≡ false
      → (s' : Session) × (step (add b) s ≡ some s')
        × IsStepped (suc m) s s' s.recording.active (λ _. [])
  unfolding step recording_buffer_add buflist_add_buffer
  add-steps b lt ring free =
      let r = s.recording in
      let guard : ltb r.n_buffer (length r.buffers) ≡ true = ground (arith, v.count, v.room) in
      let s' : Session = record {
        recording = record r {
          buffers = set r.buffers r.n_buffer r.n_buffer;
          buflist = buflist_add_buffer r.buflist;
          n_buffer = suc r.n_buffer;
        };
        buffers = put_buffer s.buffers r.n_buffer (record { buf = b; r_id = some r.n_buffer });
      } in
      (
        s',
        rw guard refl,
        record {
          valid = record {
            count = ap suc v.count;
            room = length-set r.buffers r.n_buffer r.n_buffer ∙ v.room;
            lists = length-append r.buflist ([] ∷ []) ∙ omega (arith, v.lists);
            buffers =
                put_buffer-IsRecorded (suc m) s.buffers r.n_buffer
                  (record { buf = b; r_id = some r.n_buffer }) (refl, ring, free)
                  (λ k h ne. v.buffers k (omega (arith, v.count)));
          };
          active = refl;
          snaps = λ k. add-snapshots r.buflist k ∙ sym (append-nil (snapshots s k));
        },
      )

  write-steps :
      (k : ℕ) (src : Bytes) (n : ℕ)
      → k < m
      → n ≤ length src
      → (s' : Session) × (step (write k src n) s ≡ some s')
        × IsStepped m s s' s.recording.active
            (λ j. if s.recording.active && (k == j) then slice src 0 n ∷ [] else [])
  unfolding step recorded_write recording_write
  write-steps k src n lt enough =
      let r = s.recording in
      let (b, e, id, ring, free) = IsRecorded-some k (s.buffers k) (v.buffers k lt) in
      let (o, e', w, _) = buffer_write-appends src n ring free enough in
      let new : RecordedBuffer = record b { buf = o.buf } in
      let guard : ltb k (length r.buflist) ≡ true = ground (arith, v.lists) in
      let kept =
        put_buffer-IsRecorded m s.buffers k new (id, w.valid, w.released)
          (λ j h ne. v.buffers j h) in
      elim (Bool-cases r.active) [
        | inl on ↦
            let r' : Recording = record r {
              buflist = set r.buflist k (get_or r.buflist k [] ++ (slice src 0 n ∷ []));
            } in
            (
              record { recording = r'; buffers = put_buffer s.buffers k new },
              rw (step, e, recorded_write, id, recording_write, on, pb_buffer_write, guard, e')
                  refl,
              record {
                valid = record {
                  count = v.count;
                  room = v.room;
                  lists =
                      length-set r.buflist k (get_or r.buflist k [] ++ (slice src 0 n ∷ []))
                      ∙ v.lists;
                  buffers = kept;
                };
                active = refl;
                snaps = λ j.
                    rw on (set-snapshots r.buflist k j (slice src 0 n) (omega (arith, v.lists)));
              },
            )
        | inr off ↦ (
          record s { buffers = put_buffer s.buffers k new },
          rw (step, e, recorded_write, id, recording_write, off, e') refl,
          record {
            valid = record { count = v.count; room = v.room; lists = v.lists; buffers = kept };
            active = refl;
            snaps = λ j. rw off (sym (append-nil (snapshots s j)));
          },
        )
      ]

-- What a step adds to the snapshots comes before what the other calls add.
run-joins :
    {m : ℕ} {s s1 : Session} {act : Bool} {new all : ℕ → List Bytes} (rest : ℕ → List Bytes)
    (c : SessionCall) (cs : List SessionCall)
    → step c s ≡ some s1
    → IsStepped m s s1 act new
    → ((k : ℕ) → new k ++ rest k ≡ all k)
    → ((s' : Session) × (run cs s1 ≡ some s')
        × ((k : ℕ) → snapshots s' k ≡ snapshots s1 k ++ rest k))
    → (s' : Session) × (run (c ∷ cs) s ≡ some s')
      × ((k : ℕ) → snapshots s' k ≡ snapshots s k ++ all k)
unfolding run
run-joins {s = s} {s1 = s1} {new = new} {all = all} rest c cs e w j (s', e', h) = (
  s',
  rw e e',
  λ k.
      h k
      ∙ ap (λ l. l ++ rest k) (w.snaps k)
      ∙ append_assoc (snapshots s k) (new k) (rest k)
      ∙ ap (λ l. snapshots s k ++ l) (j k),
)

heard-write :
    (k j : ℕ) (src : Bytes) (n : ℕ) (act : Bool) (cs : List SessionCall)
    → (if act && (j == k) then slice src 0 n ∷ [] else []) ++ heard k act cs
      ≡ heard k act (write j src n ∷ cs)
heard-write k j src n act cs = elim (Bool-cases (act && (j == k))) [
  | inl e ↦ rw e refl
  | inr e ↦ rw e refl
]

run-heard :
    (cs : List SessionCall) {m : ℕ} {s : Session}
    → IsSession m s
    → AreCalls m cs
    → (s' : Session) × (run cs s ≡ some s')
      × ((k : ℕ) → snapshots s' k ≡ snapshots s k ++ heard k s.recording.active cs)
unfolding run step
run-heard [] {s = s} v h = (s, refl, λ k. sym (append-nil (snapshots s k)))
run-heard (add b ∷ cs) {s = s} v (lt, ring, free, h) =
    let (s1, e, w) = add-steps v b lt ring free in
    run-joins {new = λ _. []} (λ k. heard k s.recording.active cs) (add b) cs e w (λ k. refl)
      (subst
        (λ a.
          (s' : Session) × (run cs s1 ≡ some s')
          × ((k : ℕ) → snapshots s' k ≡ snapshots s1 k ++ heard k a cs))
        w.active (run-heard cs w.valid h))
run-heard (write j src n ∷ cs) {s = s} v (lt, enough, h) =
    let (s1, e, w) = write-steps v j src n lt enough in
    run-joins (λ k. heard k s.recording.active cs) (write j src n) cs e w
      (λ k. heard-write k j src n s.recording.active cs)
      (subst
        (λ a.
          (s' : Session) × (run cs s1 ≡ some s')
          × ((k : ℕ) → snapshots s' k ≡ snapshots s1 k ++ heard k a cs))
        w.active (run-heard cs w.valid h))
run-heard (start ∷ cs) {s = s} v h =
    run-heard cs {s = record s { recording = record s.recording { active = true } }}
      (record { count = v.count; room = v.room; lists = v.lists; buffers = v.buffers }) h
run-heard (stop ∷ cs) {s = s} v h =
    run-heard cs {s = record s { recording = record s.recording { active = false } }}
      (record { count = v.count; room = v.room; lists = v.lists; buffers = v.buffers }) h

session_of-IsSession : (filename : Str) (junk : ℕ) → IsSession 0 (session_of filename junk)
unfolding recording_init
session_of-IsSession filename junk = record {
  count = refl;
  room = refl;
  lists = refl;
  buffers = λ k lt. elim lt [ ];
}

-- A new recording to which at most ten valid, unlocked rings are added, between writes to those that were added,
-- starts and stops: all calls return, and the recording then holds for each ring the bytes of the writes to it that
-- were made while it was active, in order, whether the ring had room for them or not.
pub recording-heard :
    (filename : Str) (junk : ℕ) (cs : List SessionCall)
    → AreCalls 0 cs
    → (s : Session) × (run cs (session_of filename junk) ≡ some s)
      × ((k : ℕ) → get_or s.recording.buflist k [] ≡ heard k true cs)
unfolding recording_init
recording-heard filename junk cs h = run-heard cs (session_of-IsSession filename junk) h
