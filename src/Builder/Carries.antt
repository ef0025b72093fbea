-- ===== src/Builder/Carries.antt =====
-- What the messages of all the builders have in common: a packet whose body holds the fields.
use shared_painter.Common.{
  ℕ, ◌%◌, ◌^◌, ◌≤◌, ◌≡◌, refl, subst, arith, Bool, true, false, List, [], append-nil, length,
  Option, none, some, Outcome, ok, throw, fault, ◌==◌, if◌then◌else◌,
}
use shared_painter.Wire.{Writer, Reader, read_int16}
use shared_painter.Wire.Bytes.{word_bytes, word_bytes_low16}
use shared_painter.Wire.Write.{Writes, Writes-int8, emit_lem}
use shared_painter.Wire.Read.{Reads, Reads-int8, Reads-int16, Reads-map}
use shared_painter.Wire.Bounds.{Stays, Stays-int8, Stays-map, Within}
use shared_painter.Builder.{
  text_or_empty, make_packet-frame, frame, send, parse_with, write_flag, read_flag,
}

-- A text that fits a length byte.
abbrev pub IsShort : List ℕ → Type 0
IsShort s = length s ≤ 0xff

-- The call made a packet: the frame of that code and those ids, with a body that parses to `a`.
pub record Carries {A : Type 0} (sent : Outcome (List ℕ)) (code : ℕ) (from_id to_id : List ℕ)
    (parse : List ℕ → Outcome (Option A)) (a : A) : Type 0 where
  pub body : List ℕ
  pub makes : sent ≡ ok (frame code from_id to_id body)
  pub parses : parse body ≡ ok (some a)

pub parse_with-Reads :
    {A : Type 0} {r : Reader A} {a : A} {bs : List ℕ} → Reads r a bs → parse_with r bs ≡ ok (some a)
unfolding parse_with
parse_with-Reads {A} {r} {a} {bs} h = rw found refl
  where
    found : r bs 0 ≡ ok (a, length bs)
    found = subst (λ t. r t 0 ≡ ok (a, length bs)) (append-nil bs) (h.finds [] [])

pub send-Carries :
    {A : Type 0} {w : Writer} {r : Reader A} {a : A} {bs : List ℕ} (code : ℕ)
    (from_id to_id : Option (List ℕ))
    → IsShort (text_or_empty from_id)
    → IsShort (text_or_empty to_id)
    → Writes w bs
    → Reads r a bs
    → Carries
        (send code w from_id to_id)
        code
        (text_or_empty from_id)
        (text_or_empty to_id)
        (parse_with r)
        a
unfolding send
send-Carries {bs} code from_id to_id hf ht hw hr = record {
  body = bs;
  makes = rw (emit_lem hw, make_packet-frame code bs from_id to_id hf ht);
  parses = parse_with-Reads hr;
}

-- No body makes the parse leave the buffer: it returns the fields or false.
pub parse_with-total :
    {A : Type 0} {r : Reader A}
    → Stays r
    → (body : List ℕ) → (a : Option A) × (parse_with r body ≡ ok a)
unfolding parse_with
parse_with-total {A} {r} h body = settle (r body 0) refl (h.stays body 0 (omega arith))
  where
    settle :
        (m : Outcome (A × ℕ))
        → r body 0 ≡ m
        → Within (length body) 0 m
        → (a : Option A) × (parse_with r body ≡ ok a)
    settle (ok p) e w = (some p.0, rw e)
    settle (throw x) e w = (none, rw e)
    settle fault e w = absurd w

-- A word of 16 bits is written of any number, and read back below 2 ^ 16.
pub Reads-low16 : (v : ℕ) → Reads (read_int16 true) (v % 2 ^ 16) (word_bytes 2 true v)
Reads-low16 v =
    subst (Reads (read_int16 true) (v % 2 ^ 16)) (word_bytes_low16 v)
      (Reads-int16 (v % 2 ^ 16) true (omega arith))

pub Writes-flag : (f : Bool) → Writes (write_flag f) (word_bytes 1 true (if f then 1 else 0))
unfolding write_flag
Writes-flag f = Writes-int8 (if f then 1 else 0)

pub Reads-flag : (f : Bool) → Reads read_flag f (word_bytes 1 true (if f then 1 else 0))
unfolding read_flag
Reads-flag true = Reads-map (λ t. t == 1) (Reads-int8 1 (omega arith))
Reads-flag false = Reads-map (λ t. t == 1) (Reads-int8 0 (omega arith))

pub Stays-flag : Stays read_flag
unfolding read_flag
Stays-flag = Stays-map (λ t. t == 1) Stays-int8
