-- ===== src/Builder/Delivery.antt =====
-- From CommonPacketBuilder::makePacket through the connection to the slicer of the receiver.
use shared_painter.Common.{
  ℕ, ◌≤◌, ◌<◌, ◌≡◌, refl, sym, ◌∙◌, arith, true, false, Bool-cases, inl, inr, ltb, ltb→lt, List, [],
  ◌∷◌, ◌++◌, length, Option, Outcome, ok, throw, fault, Thrown, packet_error, some, and_then, All,
  map,
}
use shared_painter.Wire.{write_string8, write_int32, ◌⨟◌}
use shared_painter.Wire.Write.{
  Refuses-first, Refuses-second, Refuses-string8, emit-Refuses, Writes-int16, Writes-string8,
}
use shared_painter.Slicer.{
  Slicer, State, Packet, code_max, max_packet_body_size, net_magic_code, receive_all,
}
use shared_painter.Slicer.Invariant.{IsOctet}
use shared_painter.Slicer.Frame.{IsSendable, framed}
use shared_painter.Slicer.Stream.{IsIdle, flatten, wire, reported, receive_all-wire}
use shared_painter.Builder.{make_packet, make_packet-frame, text_or_empty}
use shared_painter.Builder.Carries.{IsShort}

-- The arguments of a call of `make_packet`.
pub record Call : Type 0 where
  pub code : ℕ
  pub body : List ℕ
  pub from_id : Option (List ℕ)
  pub to_id : Option (List ℕ)

-- What the calls give, sent one behind the other; an exception of one of them is that of all.
abbrev pub make_all : List Call → Outcome (List ℕ)
make_all [] = ok []
make_all (m ∷ ms) =
    and_then (make_packet m.code m.body m.from_id m.to_id)
      λ bs. and_then (make_all ms) λ rest. ok (bs ++ rest)

-- The packet that a call asks for.
abbrev pub asked : Call → Packet
asked m = record {
  code = m.code;
  from_id = text_or_empty m.from_id;
  to_id = text_or_empty m.to_id;
  body = m.body;
}

-- A code that the slicer knows, and a body of at most as many bytes as it takes.
pub record IsTaken (m : Call) : Type 0 where
  pub known : m.code < code_max
  pub body_fits : length m.body ≤ max_packet_body_size

long : (s : List ℕ) → ltb 0xff (length s) ≡ true → 0xff < length s
long s h = ltb→lt 0xff (length s) h

short : (s : List ℕ) → ltb 0xff (length s) ≡ false → IsShort s
short s h = ground arith

-- Ids that do not fit their length bytes are refused.
make_packet-long_from :
    (m : Call)
    → 0xff < length (text_or_empty m.from_id)
    → make_packet m.code m.body m.from_id m.to_id ≡ throw packet_error
unfolding make_packet
make_packet-long_from m h =
    emit-Refuses (λ head. ok (head ++ m.body))
      (Refuses-second (Writes-int16 net_magic_code true) (
        Refuses-second (Writes-int16 m.code true) (
          Refuses-first (write_string8 (text_or_empty m.to_id) ⨟ write_int32 (length m.body) true)
            (Refuses-string8 (text_or_empty m.from_id) h))))

make_packet-long_to :
    (m : Call)
    → IsShort (text_or_empty m.from_id)
    → 0xff < length (text_or_empty m.to_id)
    → make_packet m.code m.body m.from_id m.to_id ≡ throw packet_error
unfolding make_packet
make_packet-long_to m k h =
    emit-Refuses (λ head. ok (head ++ m.body))
      (Refuses-second (Writes-int16 net_magic_code true) (
        Refuses-second (Writes-int16 m.code true) (
          Refuses-second (Writes-string8 (text_or_empty m.from_id) k) (
            Refuses-first (write_int32 (length m.body) true)
              (Refuses-string8 (text_or_empty m.to_id) h)))))

not_thrown : {e : Thrown} {bs : List ℕ} → ◌≡◌ {A = Outcome (List ℕ)} (throw e) (ok bs) → ⊥
not_thrown e = cc

not_fault : {bs : List ℕ} → ◌≡◌ {A = Outcome (List ℕ)} fault (ok bs) → ⊥
not_fault e = cc

same_bytes : {xs ys : List ℕ} → ok xs ≡ ok ys → xs ≡ ys
same_bytes e = cc

-- A call that returns has ids that fit, and gives the bytes of the packet that it asks for.
make_packet-made :
    (m : Call) (bs : List ℕ)
    → IsTaken m
    → make_packet m.code m.body m.from_id m.to_id ≡ ok bs
    → IsSendable (asked m) × (bs ≡ framed (asked m))
make_packet-made m bs h e = elim (Bool-cases (ltb 0xff (length (text_or_empty m.from_id)))) [
  | inl long_from ↦ absurd (not_thrown (sym (make_packet-long_from m (long _ long_from)) ∙ e))
  | inr hf ↦ elim (Bool-cases (ltb 0xff (length (text_or_empty m.to_id)))) [
    | inl long_to ↦
        absurd (not_thrown (sym (make_packet-long_to m (short _ hf) (long _ long_to)) ∙ e))
    | inr ht ↦ (
      record {
        known = h.known;
        from_short = short _ hf;
        to_short = short _ ht;
        body_fits = h.body_fits;
      },
      same_bytes
          (sym e ∙ make_packet-frame m.code m.body m.from_id m.to_id (short _ hf) (short _ ht)),
    )
  ]
]

-- Calls that all return are those of packets that can be sent, and give their bytes in order.
make_all-wire :
    (ms : List Call) (bs : List ℕ)
    → All IsTaken ms
    → make_all ms ≡ ok bs
    → All IsSendable (map asked ms) × (bs ≡ wire (map asked ms))
make_all-wire [] bs h e = (tt, same_bytes (sym e))
make_all-wire (m ∷ ms) bs h e =
    first (make_packet m.code m.body m.from_id m.to_id) (make_all ms) refl
      (λ rest q. make_all-wire ms rest h.1 q) e
  where
    first :
        (r rs : Outcome (List ℕ))
        → make_packet m.code m.body m.from_id m.to_id ≡ r
        → ((rest : List ℕ)
            → rs ≡ ok rest
            → All IsSendable (map asked ms) × (rest ≡ wire (map asked ms)))
        → and_then r (λ b. and_then rs λ rest. ok (b ++ rest)) ≡ ok bs
        → All IsSendable (map asked (m ∷ ms)) × (bs ≡ wire (map asked (m ∷ ms)))
    first (ok b) (ok rest) p q k =
        let (sendable, made) = make_packet-made m b h.0 p in
        let (sent, wired) = q rest refl in
        ((sendable, sent), same_bytes (sym k) ∙ rw (made, wired) refl)
    first (ok b) (throw x) p q k = absurd (not_thrown k)
    first (ok b) fault p q k = absurd (not_fault k)
    first (throw x) rs p q k = absurd (not_thrown k)
    first fault rs p q k = absurd (not_fault k)

-- However the bytes that calls of make_packet return are cut into one or more receive events of an
-- idle slicer, if the calls have known codes and bodies of at most the size that the slicer takes,
-- it hands on one packet for each call, in their order, with the code and the body of the call and
-- with its ids, an absent or empty id being that of the packet before; and no bytes are left.
pub receive_all-make_packet :
    (ms : List Call) (c : List ℕ) (cs : List (List ℕ)) (s : Slicer)
    → IsIdle s
    → All IsTaken ms
    → All IsOctet c
    → All (All IsOctet) cs
    → make_all ms ≡ ok (flatten (c ∷ cs))
    → (w : Slicer) × (receive_all (c ∷ cs) s
        ≡ some (reported s.curr_from_id s.curr_to_id (map asked ms), w))
      × (w.buffer.bytes ≡ [])
      × (w.state ≡ State.header_magic)
receive_all-make_packet ms c cs s idle h o os e =
    let (sendable, bytes) = make_all-wire ms (flatten (c ∷ cs)) h e in
    receive_all-wire (map asked ms) c cs s idle sendable o os bytes
