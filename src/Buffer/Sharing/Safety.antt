-- ===== src/Buffer/Sharing/Safety.antt =====
-- What threads that share a ring of src/core/buffer.c can rely on.
use hiemal.Base.{ℕ, ◌≡◌, ◌≢◌, refl, sym, ◌∙◌, false, Bool-cases, inl, inr, arith}
use mathlib.Core.Bool.{true≢false}
use mathlib.Core.Logic.{ite}
use native.Mathlib.Decide.{ℕ_discrete}
use hiemal.Buffer.{Buffer}
use hiemal.Buffer.Valid.{IsRing}
use hiemal.Buffer.Sharing.{
  Shared, Pc, Move, System, pick, Steps, stay, later, moved, opened, inside,
}
use hiemal.Buffer.Sharing.Invariant.{Balanced, IsSound, Inv}
use hiemal.Buffer.Sharing.Moves.{
  Move-enters, Move-locked, Move-IsSound, IsSound-outside, IsSound-unheld,
}

module _ {s : System} {i : ℕ} {m : Shared} {p : Pc} (v : Inv s) (mv : Move s.mem (s.pc i) m p) where
  -- While one thread moves, the others are outside.
  others-outside : (j : ℕ) → i ≢ j → inside (s.pc j) ≡ false
  others-outside j ne = elim (Bool-cases (inside (s.pc j))) [
    | inr out ↦ out
    | inl there ↦ elim (Bool-cases (inside (s.pc i))) [
      | inl e ↦ absurd (ne (v.alone i j e there))
      | inr out ↦ absurd (true≢false (sym (v.holding j there) ∙ Move-enters mv out))
    ]
  ]

  mover-locked : m.buf.locked ≡ inside p
  mover-locked = Move-locked mv (v.holding i)

  moved-IsSound : (j : ℕ) (d : Dec (i ≡ j)) → IsSound m (ite d p (s.pc j))
  moved-IsSound j (yes e) = Move-IsSound mv v.unheld (v.sound i)
  moved-IsSound j (no ne) = IsSound-outside m (s.pc j) (others-outside j ne)

  Move-Inv : Inv (record { mem = m; pc = moved s.pc i p })
  Move-Inv = record {
    alone = λ a b ha hb. ground (arith, others-outside a, others-outside b);
    holding = λ j h. ground (arith, others-outside j, mover-locked);
    held_by = λ e. (i, ground (arith, mover-locked));
    sound = λ j. moved-IsSound j (ℕ_discrete i j);
    unheld = λ e. IsSound-unheld mv (v.sound i) (sym mover-locked ∙ e);
  }

pub opened-Inv : {b : Buffer} → IsRing b → b.locked ≡ false → Inv (opened b)
opened-Inv v free = record {
  alone = λ i j h h'. absurd (true≢false (sym h));
  holding = λ i h. absurd (true≢false (sym h));
  held_by = λ h. absurd (true≢false (sym h ∙ free));
  sound = λ i. tt;
  unheld = λ e. record { valid = v; fifo = refl };
}

pub Steps-Inv : {s t : System} → Steps s t → Inv s → Inv t
Steps-Inv stay v = v
Steps-Inv (later before (pick i mv)) v = Move-Inv (Steps-Inv before v) mv

module _ {b : Buffer} (v : IsRing b) (free : b.locked ≡ false) {s : System}
    (run : Steps (opened b) s) where
  -- However writers and readers of a ring interleave, whenever its mutex is free it is a valid ring, and
  -- the bytes written so far, in the order in which they were stored, are the bytes read so far followed
  -- by those that it holds.
  pub Steps-Balanced : s.mem.buf.locked ≡ false → Balanced s.mem s.mem.buf
  Steps-Balanced = (Steps-Inv run (opened-Inv v free)).unheld
