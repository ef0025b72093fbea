-- ===== src/Wire/Fill.antt =====
-- Fields that a parse stores one at a time in an object, which keeps what was read before a failure.
use shared_painter.Common.{
  ℕ, ◌+◌, ◌≤◌, ◌==◌, ◌≡◌, refl, subst, arith, Bool, true, false, if◌then◌else◌, List, ◌++◌,
  append_assoc, length, length-append, Option, none, some, Outcome, ok, throw, fault, packet_error,
  and_then,
}
use shared_painter.Wire.{Reader, read, read_exactly, read_int8, read_string8, ◌>>=◌}
use shared_painter.Wire.Read.{Reads, Reads-string8}
use shared_painter.Wire.Write.{str8}
use shared_painter.Wire.Bounds.{Stays, Within, Stays-string8}

-- The object that is left, and the count of the bytes that were read, if no exception ends it.
abbrev pub Filler : Type 0 → Type 0
Filler S = S → List ℕ → ℕ → S × Outcome ℕ

abbrev pub store : {S A : Type 0} → Outcome (A × ℕ) → (A → S → S) → S → S × Outcome ℕ
store (ok p) set s = (set p.0 s, ok p.1)
store (throw e) set s = (s, throw e)
store fault set s = (s, fault)

-- `pos += f( data, pos, s.field );`
unfoldable pub fill : {S A : Type 0} → Reader A → (A → S → S) → Filler S
fill r set s buf pos = store (r buf pos) set s

-- `int nread = read( buf, pos, value, len ); if( nread != len ) throw …; return 1 + len;`: the
-- field has the bytes that were left, also where they are too few.
abbrev cut : {S : Type 0} → (List ℕ → S → S) → S → ℕ → ℕ → Outcome (List ℕ) → S × Outcome ℕ
cut set s n len (ok bs) = (set bs s, if length bs == len then ok (n + len) else throw packet_error)
cut set s n len (throw e) = (s, throw e)
cut set s n len fault = (s, fault)

abbrev sized : {S : Type 0} → (List ℕ → S → S) → S → List ℕ → ℕ → Outcome (ℕ × ℕ) → S × Outcome ℕ
sized set s buf pos (ok (len, n)) = cut set s n len (read buf (pos + n) len)
sized set s buf pos (throw e) = (s, throw e)
sized set s buf pos fault = (s, fault)

-- `pos += readString8( buf, pos, s.field );`
unfoldable pub fill_string8 : {S : Type 0} → (List ℕ → S → S) → Filler S
unfolding read read_int8
fill_string8 set s buf pos = sized set s buf pos (read_int8 buf pos)

abbrev pub add_count : {S : Type 0} → ℕ → S × Outcome ℕ → S × Outcome ℕ
add_count n (s, ok m) = (s, ok (n + m))
add_count n (s, throw e) = (s, throw e)
add_count n (s, fault) = (s, fault)

abbrev pub then_fill : {S : Type 0} → S × Outcome ℕ → Filler S → List ℕ → ℕ → S × Outcome ℕ
then_fill (s, ok n) g buf pos = add_count n (g s buf (pos + n))
then_fill (s, throw e) g buf pos = (s, throw e)
then_fill (s, fault) g buf pos = (s, fault)

infixr 20 ◌▷◌
unfoldable pub ◌▷◌ : {S : Type 0} → Filler S → Filler S → Filler S
◌▷◌ f g s buf pos = then_fill (f s buf pos) g buf pos

-- `try { … if( readPos ) *readPos = pos; } catch(...) { return false; } return true;`: the count is
-- what the position moves on, and there is none for false.
abbrev pub settle : {S : Type 0} → S × Outcome ℕ → Outcome (S × Option ℕ)
settle (s, ok n) = ok (s, some n)
settle (s, throw e) = ok (s, none)
settle (s, fault) = fault

-- Where `bs` stands in a buffer, the filler makes `t` of `s` and counts the bytes of `bs`.
pub record Fills {S : Type 0} (f : Filler S) (s t : S) (bs : List ℕ) : Type 0 where
  pub found : (pre post : List ℕ) → f s (pre ++ (bs ++ post)) (length pre) ≡ (t, ok (length bs))

pub Fills-fill :
    {S A : Type 0} {r : Reader A} {a : A} {bs : List ℕ} (set : A → S → S) (s : S)
    → Reads r a bs
    → Fills (fill r set) s (set a s) bs
unfolding fill
Fills-fill set s h = record { found = λ pre post. rw (h.finds pre post) refl }

-- What filling a field with a text has in common with reading the text: how it ends, and the field
-- where it returns.
abbrev Agrees : {S : Type 0} → (List ℕ → S → S) → S → S × Outcome ℕ → Outcome (List ℕ × ℕ) → Type 0
Agrees set s m (ok p) = m ≡ (set p.0 s, ok p.1)
Agrees set s m (throw e) = m.1 ≡ throw e
Agrees set s m fault = m.1 ≡ fault

fill_string8-Agrees :
    {S : Type 0} (set : List ℕ → S → S) (s : S) (buf : List ℕ) (pos : ℕ)
    → Agrees set s (fill_string8 set s buf pos) (read_string8 buf pos)
unfolding fill_string8 read_string8 ◌>>=◌ read_exactly
fill_string8-Agrees set s buf pos = outer (read_int8 buf pos)
  where
    tested :
        (n len : ℕ) (bs : List ℕ) (b : Bool)
        → Agrees set s
            (set bs s, if b then ok (n + len) else throw packet_error)
            (and_then {A = List ℕ × ℕ} {B = List ℕ × ℕ}
              (if b then ok (bs, len) else throw packet_error)
              λ q. ok (q.0, n + q.1))
    tested n len bs true = refl
    tested n len bs false = refl

    inner :
        (n len : ℕ) (m : Outcome (List ℕ))
        → Agrees set s (cut set s n len m) (
            and_then {A = List ℕ × ℕ} {B = List ℕ × ℕ}
              (and_then {B = List ℕ × ℕ} m
                λ bs. if length bs == len then ok (bs, len) else throw packet_error)
              λ q. ok (q.0, n + q.1))
    inner n len (ok bs) = tested n len bs (length bs == len)
    inner n len (throw e) = refl
    inner n len fault = refl

    outer :
        (m : Outcome (ℕ × ℕ))
        → Agrees set s (sized set s buf pos m) (
            and_then {B = List ℕ × ℕ} m λ p.
              and_then {B = List ℕ × ℕ} (read_exactly p.0 buf (pos + p.1)) λ q. ok (q.0, p.1 + q.1))
    outer (ok (len, n)) = inner n len (read buf (pos + n) len)
    outer (throw e) = refl
    outer fault = refl

pub Fills-string8 :
    {S : Type 0} (set : List ℕ → S → S) (s : S) (v : List ℕ)
    → length v ≤ 0xff
    → Fills (fill_string8 set) s (set v s) (str8 v)
Fills-string8 set s v h = record {
  found = λ pre post.
      subst (Agrees set s (fill_string8 set s (pre ++ (str8 v ++ post)) (length pre)))
        ((Reads-string8 v h).finds pre post)
        (fill_string8-Agrees set s (pre ++ (str8 v ++ post)) (length pre));
}

pub Fills-seq :
    {S : Type 0} {f g : Filler S} {s t u : S} {xs ys : List ℕ}
    → Fills f s t xs
    → Fills g t u ys
    → Fills (f ▷ g) s u (xs ++ ys)
unfolding ◌▷◌
Fills-seq {g} {t} {u} {xs} {ys} hf hg = record {
  found = λ pre post. rw (append_assoc xs ys post, hf.found pre (ys ++ post)) (next pre post);
}
  where
    next :
        (pre post : List ℕ)
        → add_count (length xs) (g t (pre ++ (xs ++ (ys ++ post))) (length pre + length xs))
          ≡ (u, ok (length (xs ++ ys)))
    next pre post = rw (
      ← length-append pre xs,
      ← append_assoc pre xs (ys ++ post),
      hg.found (pre ++ xs) post,
      length-append xs ys,
    )

abbrev pub FillsWithin : ℕ → ℕ → Outcome ℕ → Type 0
FillsWithin size pos (ok n) = pos + n ≤ size
FillsWithin size pos (throw e) = Unit {0}
FillsWithin size pos fault = ⊥

-- The filler does not leave the buffer, on any bytes.
pub record Keeps {S : Type 0} (f : Filler S) : Type 0 where
  pub keeps :
      (s : S) (buf : List ℕ) (pos : ℕ)
      → pos ≤ length buf
      → FillsWithin (length buf) pos (f s buf pos).1

pub Keeps-fill : {S A : Type 0} {r : Reader A} (set : A → S → S) → Stays r → Keeps (fill r set)
unfolding fill
Keeps-fill {S} {A} {r} set h = record {
  keeps = λ s buf pos k. stored s (length buf) pos (r buf pos) (h.stays buf pos k);
}
  where
    stored :
        (s : S) (size pos : ℕ) (m : Outcome (A × ℕ))
        → Within size pos m
        → FillsWithin size pos (store m set s).1
    stored s size pos (ok p) w = w
    stored s size pos (throw e) w = tt
    stored s size pos fault w = w

pub Keeps-string8 : {S : Type 0} (set : List ℕ → S → S) → Keeps (fill_string8 set)
Keeps-string8 {S} set = record {
  keeps = λ s buf pos k.
      same s (length buf) pos (fill_string8 set s buf pos) (read_string8 buf pos)
        (fill_string8-Agrees set s buf pos) (Stays-string8.stays buf pos k);
}
  where
    same :
        (s : S) (size pos : ℕ) (m : S × Outcome ℕ) (r : Outcome (List ℕ × ℕ))
        → Agrees set s m r
        → Within size pos r
        → FillsWithin size pos m.1
    same s size pos m (ok p) e w = rw (e) w
    same s size pos m (throw x) e w = rw (e) tt
    same s size pos m fault e w = elim w [ ]

pub Keeps-seq : {S : Type 0} {f g : Filler S} → Keeps f → Keeps g → Keeps (f ▷ g)
unfolding ◌▷◌
Keeps-seq {S} {f} {g} hf hg = record {
  keeps = λ s buf pos k. first buf pos (f s buf pos) (hf.keeps s buf pos k);
}
  where
    second :
        (size pos n : ℕ) (m : S × Outcome ℕ)
        → FillsWithin size (pos + n) m.1
        → FillsWithin size pos (add_count n m).1
    second size pos n (s, ok m) w = omega arith
    second size pos n (s, throw e) w = tt
    second size pos n (s, fault) w = w

    first :
        (buf : List ℕ) (pos : ℕ) (m : S × Outcome ℕ)
        → FillsWithin (length buf) pos m.1
        → FillsWithin (length buf) pos (then_fill m g buf pos).1
    first buf pos (s, ok n) w =
        second (length buf) pos n (g s buf (pos + n)) (hg.keeps s buf (pos + n) w)
    first buf pos (s, throw e) w = tt
    first buf pos (s, fault) w = w
