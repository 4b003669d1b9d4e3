-- ===== src/Pulse/Cards.antt =====
-- How `io_list_to_array` of src/core/pulse.c sorts io devices by their cards.
use hiemal.Base.{
  ℕ, zero, suc, ◌+◌, ◌≤◌, ◌<◌, ◌≡◌, ◌≢◌, refl, ap, sym, ◌∙◌, true, false, none, some, List, [], ◌∷◌,
  ◌++◌, length, ltb, if◌then◌else◌, arith, length-append, append_assoc, append-nil,
}
use native.Mathlib.Decide.{ℕ_discrete}
use hiemal.Base.Int.{pos_part, pos, eqb_ℤ}
use hiemal.Pulse.{
  IoDevice, IoNode, Device, Devices, update, in_range, get_index_from_card_id, count_io,
  allocate_io, put_io, place_io, io_list_to_array,
}

-- The io devices of a card, in the order of the list
unfoldable pub of_card : ℕ → List IoNode → List IoDevice
of_card k [] = []
of_card k (n ∷ l) =
    let rest = of_card k l in if eqb_ℤ n.card_id (pos k) then n.io_device ∷ rest else rest

-- The id of every node is among the first `n`.
unfoldable pub OnCards : (n : ℕ) → List IoNode → Type 0
OnCards n [] = Unit {0}
OnCards n (x ∷ l) = ((c : ℕ) × (x.card_id ≡ pos c) × (c < n)) × OnCards n l

-- An entry of the array: a device with its own place for an id, room, and io devices
pub record Holds (ds : Devices) (j room : ℕ) (ios : List IoDevice) : Type 0 where
  pub entry : Device
  pub at : ds j ≡ some entry
  pub numbered : entry.pulse_card_id ≡ pos j
  pub sized : entry.room ≡ room
  pub entries : entry.io_devices ≡ ios

-- The cards have their places in the array for ids.
abbrev pub IsNumbered : (n : ℕ) → Devices → Type 0
IsNumbered n ds = (j : ℕ) → j < n → (d : Device) × (ds j ≡ some d) × (d.pulse_card_id ≡ pos j)

pub update-same : {A : Type 0} (f : ℕ → A) (i : ℕ) (a : A) → update f i a i ≡ a
unfolding update
update-same f i a = ground arith

pub update-other : {A : Type 0} (f : ℕ → A) (i j : ℕ) (a : A) → j ≢ i → update f i a j ≡ f j
unfolding update
update-other f i j a ne = ground arith

count_io-counts :
    (n : ℕ) (l : List IoNode) (c : ℕ → ℕ)
    → OnCards n l
    → (c' : ℕ → ℕ) × (count_io n l c ≡ some c') × ((k : ℕ) → c' k ≡ c k + length (of_card k l))
unfolding count_io of_card update OnCards
count_io-counts n [] c on = (c, refl, λ k. omega arith)
count_io-counts n (x ∷ l) c ((i, e, lt), on) =
    let (c', e', counts) = count_io-counts n l (update c i (c i + 1)) on in
    (c', rw e (ground (arith, e')), λ k. ground (arith, counts k, e))

get_index_from_card_id-numbered :
    (ds : Devices) (n rounds i c : ℕ)
    → IsNumbered n ds
    → i + rounds ≡ n
    → i ≤ c
    → c < n
    → get_index_from_card_id ds (pos c) rounds i ≡ some (pos c)
unfolding get_index_from_card_id
get_index_from_card_id-numbered ds n zero i c num e le lt = absurd (omega arith)
get_index_from_card_id-numbered ds n (suc k) i c num e le lt =
    let (d, at, id) = num i (omega arith) in
    ground (arith, at, id, get_index_from_card_id-numbered ds n k (suc i) c num (omega arith))

-- Setting one entry keeps the others.
module _ (ds : Devices) (i : ℕ) (d : Device) (id : d.pulse_card_id ≡ pos i) where
  IsNumbered-update : {n : ℕ} → IsNumbered n ds → IsNumbered n (update ds i (some d))
  IsNumbered-update num j lt = elim (ℕ_discrete j i) [
    | yes e ↦ (d, rw e (update-same ds i (some d)), rw e id)
    | no ne ↦ let (d', at, id') = num j lt in (d', update-other ds i j (some d) ne ∙ at, id')
  ]

  Holds-update :
      {j room : ℕ} {ios : List IoDevice}
      → (j ≢ i → Holds ds j room ios)
      → (j ≡ i → (d.room ≡ room) × (d.io_devices ≡ ios))
      → Holds (update ds i (some d)) j room ios
  Holds-update {j = j} other here = elim (ℕ_discrete j i) [
    | yes e ↦ record {
      entry = d;
      at = rw e (update-same ds i (some d));
      numbered = rw e id;
      sized = (here e).0;
      entries = (here e).1;
    }
    | no ne ↦
        let h = other ne in
        record {
          entry = h.entry;
          at = update-other ds i j (some d) ne ∙ h.at;
          numbered = h.numbered;
          sized = h.sized;
          entries = h.entries;
        }
  ]

allocate_io-empties :
    (n rounds i : ℕ) (count : ℕ → ℕ) (ds : Devices)
    → i + rounds ≡ n
    → IsNumbered n ds
    → ((j : ℕ) → j < i → Holds ds j (count j) [])
    → (ds' : Devices) × (allocate_io rounds i count ds ≡ some ds')
      × ((j : ℕ) → j < n → Holds ds' j (count j) [])
unfolding allocate_io
allocate_io-empties n zero i count ds e num done = (ds, refl, λ j lt. done j (omega arith))
allocate_io-empties n (suc k) i count ds e num done =
    let (d, at, id) = num i (omega arith) in
    let d' : Device = record d { room = count i; io_devices = [] } in
    let (ds', e', holds) =
      allocate_io-empties n k (suc i) count (update ds i (some d')) (omega arith)
        (IsNumbered-update ds i d' id num)
        (λ j lt.
          Holds-update ds i d' id (λ ne. done j (omega arith)) (λ e. (ap count (sym e), refl))) in
    (ds', rw at e', holds)

put-of_card :
    (ios : ℕ → List IoDevice) (x : IoNode) (l : List IoNode) (c : ℕ)
    → x.card_id ≡ pos c
    → (j : ℕ)
    → update ios c (ios c ++ (x.io_device ∷ [])) j ++ of_card j l ≡ ios j ++ of_card j (x ∷ l)
unfolding update of_card
put-of_card ios x l c e j = elim (ℕ_discrete j c) [
  | yes eq ↦ ground (arith, eq, e, ap ios eq, append_assoc (ios c) (x.io_device ∷ []) (of_card j l))
  | no ne ↦ ground (arith, e)
]

-- There is room in every array for the io devices still to come.
place_io-sorts :
    (n : ℕ) (l : List IoNode) (room : ℕ → ℕ) (ios : ℕ → List IoDevice) (ds : Devices)
    → OnCards n l
    → ((j : ℕ) → j < n → Holds ds j (room j) (ios j))
    → ((j : ℕ) → j < n → length (ios j) + length (of_card j l) ≤ room j)
    → (ds' : Devices) × (place_io n l ds ≡ some ds')
      × ((j : ℕ) → j < n → Holds ds' j (room j) (ios j ++ of_card j l))
unfolding place_io put_io of_card OnCards update
place_io-sorts n [] room ios ds on holds fits =
    (ds, refl, λ j lt. rw (append-nil (ios j)) (holds j lt))
place_io-sorts n (x ∷ l) room ios ds ((c, e, lt), on) holds fits =
    let h = holds c lt in
    let d : Device = record h.entry { io_devices = h.entry.io_devices ++ (x.io_device ∷ []) } in
    let ios' : ℕ → List IoDevice = update ios c (ios c ++ (x.io_device ∷ [])) in
    let num : IsNumbered n ds = λ j lt. let h = holds j lt in (h.entry, h.at, h.numbered) in
    let room_left : ltb (length h.entry.io_devices) h.entry.room ≡ true =
      ground (arith, fits c lt, e, ap length h.entries, h.sized) in
    let (ds', eq, sorted) =
      place_io-sorts n l room ios' (update ds c (some d)) on
        (λ j lt.
          Holds-update ds c d h.numbered
            (λ ne. rw (update-other ios c j (ios c ++ (x.io_device ∷ [])) ne) (holds j lt))
            (λ e. rw e (
              h.sized,
              ap (λ xs. xs ++ (x.io_device ∷ [])) h.entries
                  ∙ sym (update-same ios c (ios c ++ (x.io_device ∷ []))),
            )))
        (λ j lt. omega (
          arith,
          fits j lt,
          ap length (put-of_card ios x l c e j),
          length-append (ios' j) (of_card j l),
          length-append (ios j) (of_card j (x ∷ l)),
        )) in
    (
      ds',
      rw
          (
            e,
            get_index_from_card_id-numbered ds n n 0 c num (omega arith) (omega arith) lt,
            h.at,
            room_left,
          )
          eq,
      λ j lt. rw (put-of_card ios x l c e j) at (sorted j lt),
    )

-- `io_list_to_array` gives every card its io devices, in the order of the list, when the cards are
-- numbered from 0 by their places and every io device is on one of them.
pub io_list_to_array-sorts :
    (l : List IoNode) (n : ℕ) (ds : Devices)
    → IsNumbered n ds
    → OnCards n l
    → (ds' : Devices) × (io_list_to_array l n ds ≡ some ds')
      × ((j : ℕ) → j < n → Holds ds' j (length (of_card j l)) (of_card j l))
unfolding io_list_to_array
io_list_to_array-sorts l n ds num on =
    let (count, e, counts) = count_io-counts n l (λ _. 0) on in
    let (ds1, e1, empties) =
      allocate_io-empties n n 0 count ds (omega arith) num (λ j lt. absurd (omega arith)) in
    let (ds2, e2, sorted) =
      place_io-sorts n l count (λ _. []) ds1 on empties (λ j lt. omega (arith, counts j)) in
    (
      ds2,
      rw (e, e1) e2,
      λ j lt.
          let c : count j ≡ length (of_card j l) = omega (arith, counts j) in rw c at (sorted j lt),
    )

count_io-faults :
    (n : ℕ) (xs ys : List IoNode) (x : IoNode) (c : ℕ → ℕ)
    → in_range n x.card_id ≡ false
    → count_io n (xs ++ (x ∷ ys)) c ≡ none
unfolding count_io
count_io-faults n [] ys x c out = rw out refl
count_io-faults n (z ∷ zs) ys x c out = ground (
  arith,
  count_io-faults n zs ys x (update c (pos_part z.card_id) (c (pos_part z.card_id) + 1)) out,
)

-- `io_list_to_array` writes outside its array of counts when the id of some io device's card is below 0 or not
-- below the number of cards, whether or not a card has that id.
pub io_list_to_array-faults :
    (n : ℕ) (xs ys : List IoNode) (x : IoNode) (ds : Devices)
    → in_range n x.card_id ≡ false
    → io_list_to_array (xs ++ (x ∷ ys)) n ds ≡ none
unfolding io_list_to_array
io_list_to_array-faults n xs ys x ds out = rw (count_io-faults n xs ys x (λ _. 0) out) refl
