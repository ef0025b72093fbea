-- ===== src/Examples/Streams.antt =====
-- The slicer on a connection that carries a chat message and an answer to a probe.
use shared_painter.Common.{
  ℕ, ◌≡◌, refl, arith, List, [], ◌∷◌, ◌++◌, length, some, All, Bool, true, false, ltb, ltb→lt,
  Bool-cases, inl, inr, ◌≢◌, if◌then◌else◌, subst,
}
use shared_painter.Wire.Bytes.{word_bytes, le_bytes}
use shared_painter.Slicer.{
  Slicer, Packet, Step, State, wait, reject, do_parse, receive, receive_all, new_slicer, parse,
}
use shared_painter.Slicer.Invariant.{IsOctet, IsSound, EndsSound}
use shared_painter.Slicer.Sound.{do_parse-EndsSound}
use shared_painter.Slicer.Parse.{Runs, Ended, cleared, parse-Runs}
use shared_painter.Slicer.Chunks.{receive-append, prepend}
use shared_painter.Slicer.Frame.{IsSendable}
use shared_painter.Slicer.Stream.{new_slicer-IsIdle, receive_all-wire}

abbrev chat : Packet
chat = record { code = 12; from_id = 97 ∷ []; to_id = []; body = 1 ∷ 104 ∷ [] }

abbrev ack : Packet
ack = record { code = 5; from_id = []; to_id = []; body = [] }

abbrev chat_start : List ℕ
chat_start = 0xbe ∷ 0xbe ∷ 12 ∷ []

abbrev chat_end : List ℕ
chat_end = 0 ∷ 1 ∷ 97 ∷ 0 ∷ 2 ∷ 0 ∷ 0 ∷ 0 ∷ 1 ∷ 104 ∷ []

abbrev ack_bytes : List ℕ
ack_bytes = 0xbe ∷ 0xbe ∷ 5 ∷ 0 ∷ 0 ∷ 0 ∷ 0 ∷ 0 ∷ 0 ∷ 0 ∷ []

false_not : ◌≢◌ {A = Bool} false true
false_not e = cc

abbrev octet_test : List ℕ → Bool
octet_test [] = true
octet_test (x ∷ xs) = if ltb x 256 then octet_test xs else false

octets : (bs : List ℕ) → octet_test bs ≡ true → All IsOctet bs
octets [] e = tt
octets (x ∷ xs) e = elim (Bool-cases (ltb x 256)) [
  | inl small ↦ (
    ltb→lt x 256 small,
    octets xs (subst (λ b. (if b then octet_test xs else false) ≡ true) small e),
  )
  | inr large ↦
      absurd (false_not (subst (λ b. (if b then octet_test xs else false) ≡ true) large e))
]

octets_start : All IsOctet chat_start
octets_start = octets chat_start refl

octets_end : All IsOctet chat_end
octets_end = octets chat_end refl

octets_ack : All IsOctet ack_bytes
octets_ack = octets ack_bytes refl

chat-IsSendable : IsSendable chat
chat-IsSendable = record {
  known = omega arith;
  from_short = omega arith;
  to_short = omega arith;
  body_fits = omega arith;
}

ack-IsSendable : IsSendable ack
ack-IsSendable = record {
  known = omega arith;
  from_short = omega arith;
  to_short = omega arith;
  body_fits = omega arith;
}

-- Three events: the chat message in two parts, and the answer behind it, whose empty sender is
-- reported as that of the chat message.
receive_all-wire_example :
    (w : Slicer) × (receive_all (chat_start ∷ chat_end ∷ ack_bytes ∷ []) new_slicer
      ≡ some (chat ∷ record ack { from_id = 97 ∷ [] } ∷ [], w))
    × (w.buffer.bytes ≡ [])
    × (w.state ≡ State.header_magic)
unfolding word_bytes le_bytes new_slicer
receive_all-wire_example =
    receive_all-wire (chat ∷ ack ∷ []) chat_start (chat_end ∷ ack_bytes ∷ []) new_slicer
      new_slicer-IsIdle (chat-IsSendable, (ack-IsSendable, tt)) octets_start
      (octets_end, (octets_ack, tt)) refl

receive-append_example :
    ((u w : Slicer)
      → receive chat_start new_slicer ≡ some (wait, u)
      → receive chat_end u ≡ some (wait, w)
      → receive (chat_start ++ chat_end) new_slicer ≡ some (wait, prepend u.parsed_items w))
    × ((u w : Slicer)
        → receive chat_start new_slicer ≡ some (wait, u)
        → receive chat_end u ≡ some (reject, w)
        → receive (chat_start ++ chat_end) new_slicer ≡ some (reject, w))
    × ((u : Slicer)
        → receive chat_start new_slicer ≡ some (reject, u)
        → receive (chat_start ++ chat_end) new_slicer ≡ some (reject, u))
receive-append_example =
    receive-append chat_start chat_end new_slicer octets_start octets_end new_slicer-IsIdle.sound

do_parse-EndsSound_example : EndsSound (length new_slicer.buffer.bytes) (do_parse new_slicer)
do_parse-EndsSound_example = do_parse-EndsSound new_slicer new_slicer-IsIdle.sound

parse-Runs_example :
    (t : Step) × (parse new_slicer ≡ some t) × Runs (cleared new_slicer) t × Ended t
parse-Runs_example = parse-Runs new_slicer new_slicer-IsIdle.sound

-- A slicer whose buffer holds the chat message and the start of another packet.
abbrev filled : Slicer
unfolding new_slicer
filled = record new_slicer {
  buffer = record { bytes = chat_start ++ (chat_end ++ (0xbe ∷ [])); read_pos = 0 };
}

filled-IsSound : IsSound filled
unfolding new_slicer
filled-IsSound = record {
  counted = record {
    placed = omega arith;
    synced = refl;
    octets = octets filled.buffer.bytes refl;
  };
  staged = refl;
}
