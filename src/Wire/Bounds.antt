-- ===== src/Wire/Bounds.antt =====
-- PacketBuffer.h, CPacketBufferUtil: the readers on any bytes, well formed or not.
use shared_painter.Common.{
  ℕ, ◌+◌, ◌≤◌, arith, Bool, List, length, take, drop, length-take, length-drop, ◌==◌, Bool-cases,
  inl, inr, ==_iff, Outcome, ok, throw, fault, and_then,
}
use shared_painter.Wire.{
  Reader, read_exactly, read_word, read_int8, read_int16, read_int32, read_double, ◌>>=◌, done,
  read_string8, read_string16, read_string32,
}
use shared_painter.Wire.Read.{read-inside}

-- The call returns a count that ends inside the buffer, or throws: it has no undefined behaviour.
abbrev pub Within : {A : Type 0} → ℕ → ℕ → Outcome (A × ℕ) → Type 0
Within size pos (ok p) = pos + p.1 ≤ size
Within size pos (throw e) = Unit {0}
Within size pos fault = ⊥

pub record Stays {A : Type 0} (r : Reader A) : Type 0 where
  pub stays : (buf : List ℕ) (pos : ℕ) → pos ≤ length buf → Within (length buf) pos (r buf pos)

Stays-exactly : (k : ℕ) → Stays (read_exactly k)
unfolding read_exactly
Stays-exactly k = record {
  stays = λ buf pos h. elim (Bool-cases (length (take k (drop pos buf)) == k)) [
    | inl full ↦
        rw (read-inside buf pos k h, full)
          (omega (arith, (==_iff _ _).0 full, length-take k (drop pos buf), length-drop pos buf))
    | inr short ↦ rw (read-inside buf pos k h, short) tt
  ];
}

Within-map :
    {A B : Type 0} (size pos : ℕ) (m : Outcome (A × ℕ)) (f : A → B)
    → Within size pos m
    → Within size pos (and_then {B = B × ℕ} m (λ p. ok (f p.0, p.1)))
Within-map size pos (ok p) f h = h
Within-map size pos (throw e) f h = h
Within-map size pos fault f h = h

Stays-word : (k : ℕ) (le : Bool) → Stays (read_word k le)
unfolding read_word
Stays-word k le = record {
  stays = λ buf pos h.
      Within-map (length buf) pos (read_exactly k buf pos) _ ((Stays-exactly k).stays buf pos h);
}

Within-bind :
    {A B : Type 0} (buf : List ℕ) (pos : ℕ) (m : Outcome (A × ℕ)) (k : A → Reader B)
    → Within (length buf) pos m
    → ((a : A) → Stays (k a))
    → Within (length buf) pos (
        and_then {B = B × ℕ} m
          λ p. and_then {B = B × ℕ} (k p.0 buf (pos + p.1)) λ q. ok (q.0, p.1 + q.1))
Within-bind {B} buf pos (ok (a, n)) k h hk =
    shift (k a buf (pos + n)) ((hk a).stays buf (pos + n) h)
  where
    shift :
        (m : Outcome (B × ℕ))
        → Within (length buf) (pos + n) m
        → Within (length buf) pos (and_then {B = B × ℕ} m λ q. ok (q.0, n + q.1))
    shift (ok q) w = omega arith
    shift (throw e) w = tt
    shift fault w = w
Within-bind buf pos (throw e) k h hk = tt
Within-bind buf pos fault k h hk = h

pub Stays-bind :
    {A B : Type 0} {r : Reader A} (k : A → Reader B)
    → Stays r
    → ((a : A) → Stays (k a))
    → Stays (r >>= k)
unfolding ◌>>=◌
Stays-bind {r} k hr hk = record {
  stays = λ buf pos h. Within-bind buf pos (r buf pos) k (hr.stays buf pos h) hk;
}

pub Stays-done : {A : Type 0} (a : A) → Stays (done a)
unfolding done
Stays-done a = record { stays = λ buf pos h. omega arith }

pub Stays-int8 : Stays read_int8
unfolding read_int8
Stays-int8 = Stays-word 1 _

pub Stays-int16 : (le : Bool) → Stays (read_int16 le)
unfolding read_int16
Stays-int16 le = Stays-word 2 le

pub Stays-int32 : (le : Bool) → Stays (read_int32 le)
unfolding read_int32
Stays-int32 le = Stays-word 4 le

pub Stays-double : Stays read_double
unfolding read_double
Stays-double = Stays-word 8 _

pub Stays-string8 : Stays read_string8
unfolding read_string8
Stays-string8 = Stays-bind read_exactly Stays-int8 Stays-exactly

pub Stays-string16 : (le : Bool) → Stays (read_string16 le)
unfolding read_string16
Stays-string16 le = Stays-bind read_exactly (Stays-int16 le) Stays-exactly

pub Stays-string32 : (le : Bool) → Stays (read_string32 le)
unfolding read_string32
Stays-string32 le = Stays-bind read_exactly (Stays-int32 le) Stays-exactly

pub Stays-map : {A B : Type 0} {r : Reader A} (f : A → B) → Stays r → Stays (do x ← r; done (f x))
Stays-map f h = Stays-bind (λ x. done (f x)) h (λ x. Stays-done (f x))
