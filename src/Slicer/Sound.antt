-- ===== src/Slicer/Sound.antt =====
-- PacketSlicer.h, doParse: the invariant through a step, stage by stage.
use shared_painter.Common.{
  ℕ, ◌≤◌, ◌<◌, ◌≡◌, ◌≢◌, refl, sym, subst, arith, true, length, take, ltb, leb, lt→ltb, le→ltb,
  Bool-cases, inl, inr, ◌==◌,
}
use shared_painter.Wire.Bytes.{word_value}
use shared_painter.Buffer.Queue.{unread}
use shared_painter.Slicer.{
  Slicer, State, from, to, read_id, read_id_text, set_id_len, set_id, with_id, with_id_len,
  with_blen, to_blen, to_to_id, with_code, with_magic, parse_magic, parse_code, parse_from_id,
  parse_to_id, parse_blen, parse_from, do_parse, start_header, code_max, max_packet_body_size,
  net_magic_code,
}
use shared_painter.Slicer.Grow.{
  took, Takes-read, Takes-int8, Takes-int16, Takes-int32, few_or_enough,
}
use shared_painter.Slicer.Invariant.{
  Staged, IsCounted, IsSound, EndsSound, need-EndsSound, took-IsCounted, id_len-IsOctet,
  initialize-IsSound, body-EndsSound,
}

IsSound-at : {t : State} (s : Slicer) → s.state ≡ t → IsCounted s → Staged t s → IsSound s
IsSound-at s e c h = record { counted = c; staged = subst (λ u. Staged u s) (sym e) h }

Staged-at : {t : State} (s : Slicer) → s.state ≡ t → IsSound s → Staged t s
Staged-at s e h = subst (λ u. Staged u s) e h.staged

-- A counted slicer with new fields besides the buffer and the count.
abbrev size_of : Slicer → ℕ
size_of s = length s.buffer.bytes

blen-EndsSound :
    (s : Slicer) → s.state ≡ State.header_blen → IsSound s → EndsSound (size_of s) (parse_blen s)
unfolding parse_blen
blen-EndsSound s e h = need-EndsSound (size_of s) s with_blen Takes-int32 h λ enough.
    let n = word_value true (take 4 (unread s.buffer)) in
    let c = took-IsCounted 4 s h.counted (omega (arith, Staged-at s e h)) enough in
    elim (Bool-cases (ltb max_packet_body_size n)) [
      | inl big ↦ rw big (initialize-IsSound (record (took 4 s) { curr_body_len = n }))
      | inr fits ↦ rw fits (
          body-EndsSound (record (took 4 s) { curr_body_len = n; state = State.body }) refl
            (record {
              counted = record { placed = c.placed; synced = c.synced; octets = c.octets };
              staged =
                  (omega (arith, Staged-at s e h), omega (arith, Staged-at s e h), ground arith);
            }))
    ]

to_text-EndsSound :
    (s : Slicer)
    → s.state ≡ State.header_to_id
    → IsCounted s
    → 4 ≤ s.buffer.read_pos
    → s.buffer.read_pos ≤ 261
    → s.curr_to_id_len < 256
    → EndsSound (size_of s) (read_id_text to to_blen s)
unfolding read_id_text
to_text-EndsSound s e c lo hi len = elim (few_or_enough 1 s.curr_to_id_len) [
  | inl none ↦ rw (le→ltb 0 s.curr_to_id_len (omega arith)) (
      blen-EndsSound (record s { state = State.header_blen }) refl
        (record {
          counted = record { placed = c.placed; synced = c.synced; octets = c.octets };
          staged = (lo, omega arith);
        }))
  | inr some ↦ rw (lt→ltb 0 s.curr_to_id_len some) (
      need-EndsSound (size_of s) s (with_id to to_blen) (Takes-read s.curr_to_id_len)
        (IsSound-at s e c (lo, hi, omega arith, len))
        λ enough.
          let c' = took-IsCounted s.curr_to_id_len s c (omega arith) enough in
          blen-EndsSound
            (record (set_id to (take s.curr_to_id_len (unread s.buffer))
              (took s.curr_to_id_len s)) { state = State.header_blen })
            refl
            (record {
              counted = record { placed = c'.placed; synced = c'.synced; octets = c'.octets };
              staged = (omega arith, omega arith);
            }))
]

to_id-EndsSound :
    (s : Slicer) → s.state ≡ State.header_to_id → IsSound s → EndsSound (size_of s) (parse_to_id s)
unfolding parse_to_id read_id
to_id-EndsSound s e h = elim (few_or_enough 1 s.curr_to_id_len) [
  | inl none ↦ rw (le→ltb 0 s.curr_to_id_len (omega arith)) (
      need-EndsSound (size_of s) s (with_id_len to to_blen) Takes-int8 h λ enough.
        let c = took-IsCounted 1 s h.counted (omega (arith, Staged-at s e h)) enough in
        to_text-EndsSound (set_id_len to (word_value true (take 1 (unread s.buffer))) (took 1 s)) e
          (record { placed = c.placed; synced = c.synced; octets = c.octets })
          (omega (arith, Staged-at s e h)) (omega (arith, (Staged-at s e h).2 (omega arith)))
          (id_len-IsOctet s h.counted))
  | inr some ↦
      rw (lt→ltb 0 s.curr_to_id_len some) (
        to_text-EndsSound s e h.counted (Staged-at s e h).0 (Staged-at s e h).1 (Staged-at s e h).3)
]

from_text-EndsSound :
    (s : Slicer)
    → s.state ≡ State.header_from_id
    → IsCounted s
    → 4 ≤ s.buffer.read_pos
    → s.buffer.read_pos ≤ 5
    → s.curr_from_id_len < 256
    → s.curr_to_id_len ≡ 0
    → EndsSound (size_of s) (read_id_text from to_to_id s)
unfolding read_id_text
from_text-EndsSound s e c lo hi len unset = elim (few_or_enough 1 s.curr_from_id_len) [
  | inl none ↦ rw (le→ltb 0 s.curr_from_id_len (omega arith)) (
      to_id-EndsSound (record s { state = State.header_to_id }) refl
        (record {
          counted = record { placed = c.placed; synced = c.synced; octets = c.octets };
          staged = (lo, omega arith, omega arith, omega arith);
        }))
  | inr some ↦ rw (lt→ltb 0 s.curr_from_id_len some) (
      need-EndsSound (size_of s) s (with_id from to_to_id) (Takes-read s.curr_from_id_len)
        (IsSound-at s e c (lo, hi, omega arith, len, unset))
        λ enough.
          let c' = took-IsCounted s.curr_from_id_len s c (omega arith) enough in
          to_id-EndsSound
            (record (set_id from (take s.curr_from_id_len (unread s.buffer))
              (took s.curr_from_id_len s)) { state = State.header_to_id })
            refl
            (record {
              counted = record { placed = c'.placed; synced = c'.synced; octets = c'.octets };
              staged = (omega arith, omega arith, omega arith, omega arith);
            }))
]

from_id-EndsSound :
    (s : Slicer)
    → s.state ≡ State.header_from_id
    → IsSound s
    → EndsSound (size_of s) (parse_from_id s)
unfolding parse_from_id read_id
from_id-EndsSound s e h = elim (few_or_enough 1 s.curr_from_id_len) [
  | inl none ↦ rw (le→ltb 0 s.curr_from_id_len (omega arith)) (
      need-EndsSound (size_of s) s (with_id_len from to_to_id) Takes-int8 h λ enough.
        let c = took-IsCounted 1 s h.counted (omega (arith, Staged-at s e h)) enough in
        from_text-EndsSound
          (set_id_len from (word_value true (take 1 (unread s.buffer))) (took 1 s)) e
          (record { placed = c.placed; synced = c.synced; octets = c.octets })
          (omega (arith, Staged-at s e h)) (omega (arith, (Staged-at s e h).2 (omega arith)))
          (id_len-IsOctet s h.counted) (Staged-at s e h).4)
  | inr some ↦ rw (lt→ltb 0 s.curr_from_id_len some) (
      from_text-EndsSound s e h.counted (Staged-at s e h).0 (Staged-at s e h).1 (Staged-at s e h).3
        (Staged-at s e h).4)
]

code-EndsSound :
    (s : Slicer) → s.state ≡ State.header_code → IsSound s → EndsSound (size_of s) (parse_code s)
unfolding parse_code
code-EndsSound s e h = need-EndsSound (size_of s) s with_code Takes-int16 h λ enough.
    let n = word_value true (take 2 (unread s.buffer)) in
    let c = took-IsCounted 2 s h.counted (omega (arith, Staged-at s e h)) enough in
    elim (Bool-cases (leb code_max n)) [
      | inl big ↦ rw big (initialize-IsSound (record (took 2 s) { curr_code = n }))
      | inr fits ↦ rw fits (
          from_id-EndsSound (record (took 2 s) { curr_code = n; state = State.header_from_id }) refl
            (record {
              counted = record { placed = c.placed; synced = c.synced; octets = c.octets };
              staged = (
                omega (arith, Staged-at s e h),
                omega (arith, Staged-at s e h),
                omega (arith, Staged-at s e h),
                omega (arith, Staged-at s e h),
                (Staged-at s e h).2,
              );
            }))
    ]

magic-EndsSound :
    (s : Slicer) → s.state ≡ State.header_magic → IsSound s → EndsSound (size_of s) (parse_magic s)
unfolding parse_magic
magic-EndsSound s e h =
    need-EndsSound (size_of s) (start_header s) with_magic Takes-int16
      (IsSound-at (start_header s) e start (Staged-at s e h))
      λ enough.
        let n = word_value true (take 2 (unread s.buffer)) in
        let c = took-IsCounted 2 (start_header s) start (omega (arith, Staged-at s e h)) enough in
        elim (Bool-cases (n == net_magic_code)) [
          | inl magic ↦ rw magic (
              code-EndsSound (record (took 2 (start_header s)) { state = State.header_code }) refl
                (record {
                  counted = record { placed = c.placed; synced = c.synced; octets = c.octets };
                  staged = (omega (arith, Staged-at s e h), refl, refl);
                }))
          | inr other ↦ rw other (initialize-IsSound (took 2 (start_header s)))
        ]
  where
    start : IsCounted (start_header s)
    start = record {
      placed = h.counted.placed;
      synced = sym (Staged-at s e h);
      octets = h.counted.octets;
    }

from-EndsSound :
    (t : State) (s : Slicer) → s.state ≡ t → IsSound s → EndsSound (size_of s) (parse_from t s)
unfolding parse_from
from-EndsSound State.init s e h = absurd (Staged-at s e h)
from-EndsSound State.header_magic s e h = magic-EndsSound s e h
from-EndsSound State.header_code s e h = code-EndsSound s e h
from-EndsSound State.header_from_id s e h = from_id-EndsSound s e h
from-EndsSound State.header_to_id s e h = to_id-EndsSound s e h
from-EndsSound State.header_blen s e h = blen-EndsSound s e h
from-EndsSound State.body s e h = body-EndsSound s e h

-- From a sound slicer a step ends sound: it never reads outside the buffer, no exception reaches
-- the handler, and where it returns true the buffer has become shorter.
pub do_parse-EndsSound : (s : Slicer) → IsSound s → EndsSound (length s.buffer.bytes) (do_parse s)
unfolding do_parse
do_parse-EndsSound s h = from-EndsSound s.state s refl h

pub IsSound-ne-init : (s : Slicer) → IsSound s → s.state ≢ State.init
IsSound-ne-init s h e = Staged-at s e h
