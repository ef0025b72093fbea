-- ===== src/Slicer/Body.antt =====
-- PacketSlicer.h, doParse: the last stage of a step, the body of a packet, and the packet cut off the buffer.
use shared_painter.Common.{
  ℕ, ◌+◌, ◌%◌, ◌^◌, ◌≤◌, ◌<◌, ◌≡◌, ap, ap₂, arith, List, [], ◌∷◌, ◌++◌, append_assoc, length,
  length-drop, drop, take-append_of_le, drop-append_of_le, lt→ltb, le→ltb, inl, inr, ◌⊎◌, ok,
}
use shared_painter.Buffer
use shared_painter.Buffer.Queue.{IsPlaced, unread, remaining_size-unread}
use shared_painter.Slicer.{Slicer, Packet, State, more, wait, broken, parse_body, current_packet}
use shared_painter.Slicer.Grow.{grow, few_or_enough}

-- The slicer behind a whole packet.
abbrev pub cut : Slicer → Slicer
cut s = record s {
  buffer = record {
    bytes = drop ((s.curr_header_len + s.curr_body_len) % 2 ^ 32) s.buffer.bytes;
    read_pos = 0;
  };
  parsed_items = s.parsed_items ++ (current_packet s ∷ []);
  curr_header_len = 0;
  state = State.header_magic;
}

erase-front :
    (b : Buffer.Buffer) (n : ℕ)
    → n ≤ length b.bytes
    → Buffer.erase 0 n b ≡ (ok n, record b { bytes = drop n b.bytes })
unfolding Buffer.erase
erase-front b n h = let e : 0 + n ≡ n = omega arith in rw (e, le→ltb (length b.bytes) n h)

pub body-wait :
    (s : Slicer)
    → IsPlaced s.buffer
    → length (unread s.buffer) < s.curr_body_len
    → parse_body s ≡ (wait, s)
unfolding parse_body
body-wait s h few = rw (remaining_size-unread s.buffer h, lt→ltb _ _ few)

pub body-cut :
    (s : Slicer)
    → IsPlaced s.buffer
    → s.curr_body_len ≤ length (unread s.buffer)
    → s.curr_header_len + s.curr_body_len ≤ length s.buffer.bytes
    → parse_body s ≡ (more, cut s)
unfolding parse_body Buffer.set_read_pos
body-cut s h all room = rw (
  remaining_size-unread s.buffer h,
  le→ltb (length (unread s.buffer)) s.curr_body_len all,
  le→ltb _ _ room,
  erase-front s.buffer ((s.curr_header_len + s.curr_body_len) % 2 ^ 32) (omega arith),
)

body-broken :
    (s : Slicer)
    → IsPlaced s.buffer
    → s.curr_body_len ≤ length (unread s.buffer)
    → length s.buffer.bytes < s.curr_header_len + s.curr_body_len
    → parse_body s ≡ (broken, s)
unfolding parse_body
body-broken s h all out = rw (
  remaining_size-unread s.buffer h,
  le→ltb (length (unread s.buffer)) s.curr_body_len all,
  lt→ltb _ _ out,
)

pub body-cases :
    (s : Slicer)
    → IsPlaced s.buffer
    → (length (unread s.buffer) < s.curr_body_len)
      ⊎ ((s.curr_body_len ≤ length (unread s.buffer))
          × (s.curr_header_len + s.curr_body_len ≤ length s.buffer.bytes))
      ⊎ (parse_body s ≡ (broken, s))
body-cases s h = elim (few_or_enough s.curr_body_len (length (unread s.buffer))) [
  | inl few ↦ inl few
  | inr all ↦ elim (few_or_enough (s.curr_header_len + s.curr_body_len) (length s.buffer.bytes)) [
    | inl out ↦ inr (inr (body-broken s h all out))
    | inr room ↦ inr (inl (all, room))
  ]
]

current_packet-grow :
    (before : List Packet) (bs : List ℕ) (s : Slicer)
    → s.curr_header_len + s.curr_body_len ≤ length s.buffer.bytes
    → current_packet (grow before bs s) ≡ current_packet s
current_packet-grow before bs s room = ap filled (
    rw (drop-append_of_le s.curr_header_len s.buffer.bytes bs (omega arith)) (
      take-append_of_le s.curr_body_len (drop s.curr_header_len s.buffer.bytes) bs
        (omega (arith, length-drop s.curr_header_len s.buffer.bytes))))
  where
    filled : List ℕ → Packet
    filled text = record {
      code = s.curr_code;
      from_id = s.curr_from_id;
      to_id = s.curr_to_id;
      body = text;
    }

-- Cutting does not touch what stands behind the packet, nor the packets before it.
pub cut-grow :
    (before : List Packet) (bs : List ℕ) (s : Slicer)
    → s.curr_header_len + s.curr_body_len ≤ length s.buffer.bytes
    → cut (grow before bs s) ≡ grow before bs (cut s)
cut-grow before bs s room = rw (current_packet-grow before bs s room) (
    ap₂ put
      (drop-append_of_le ((s.curr_header_len + s.curr_body_len) % 2 ^ 32) s.buffer.bytes bs
        (omega arith))
      (append_assoc before s.parsed_items (current_packet s ∷ [])))
  where
    put : List ℕ → List Packet → Slicer
    put text items = record (cut s) {
      buffer = record { bytes = text; read_pos = 0 };
      parsed_items = items;
    }
