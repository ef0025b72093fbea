-- ===== src/Slicer/Invariant.antt =====
-- PacketSlicer.h: the invariant of a slicer, the length of the header that was read in each state.
use shared_painter.Common.{
  ℕ, ◌+◌, ◌%◌, ◌^◌, ◌≤◌, ◌<◌, ◌≡◌, refl, subst, arith, true, List, [], ◌∷◌, length, length-drop,
  take, All, All-drop, inl, inr,
}
use shared_painter.Wire.Bytes.{word_value, le_value}
use shared_painter.Buffer
use shared_painter.Buffer.{Buffer, Method}
use shared_painter.Buffer.Queue.{IsPlaced, unread}
use shared_painter.Buffer.Words.{unread-room}
use shared_painter.Slicer.{
  Slicer, Step, State, more, wait, reject, caught, uncaught, broken, need, initialize, parse_body,
  max_packet_body_size,
}
use shared_painter.Slicer.Grow.{took, Takes, need-wait, need-ready, few_or_enough}
use shared_painter.Slicer.Body.{body-wait, body-cut}

abbrev pub IsOctet : ℕ → Type 0
IsOctet b = b < 256

-- How far the header was read in each state, and what was read of it.
abbrev pub Staged : State → Slicer → Type 0
Staged State.init s = ⊥
Staged State.header_magic s = s.buffer.read_pos ≡ 0
Staged State.header_code s =
    (s.buffer.read_pos ≡ 2) × (s.curr_from_id_len ≡ 0) × (s.curr_to_id_len ≡ 0)
Staged State.header_from_id s =
    (4 ≤ s.buffer.read_pos)
    × (s.buffer.read_pos ≤ 5)
    × (s.curr_from_id_len ≡ 0 → s.buffer.read_pos ≤ 4)
    × (s.curr_from_id_len < 256)
    × (s.curr_to_id_len ≡ 0)
Staged State.header_to_id s =
    (4 ≤ s.buffer.read_pos)
    × (s.buffer.read_pos ≤ 261)
    × (s.curr_to_id_len ≡ 0 → s.buffer.read_pos ≤ 260)
    × (s.curr_to_id_len < 256)
Staged State.header_blen s = (4 ≤ s.buffer.read_pos) × (s.buffer.read_pos ≤ 516)
Staged State.body s =
    (4 ≤ s.buffer.read_pos) × (s.buffer.read_pos ≤ 520) × (s.curr_body_len ≤ max_packet_body_size)

-- What holds in every state: the position, the header's count, the bytes.
pub record IsCounted (s : Slicer) : Type 0 where
  pub placed : IsPlaced s.buffer
  pub synced : s.curr_header_len ≡ s.buffer.read_pos
  pub octets : All IsOctet s.buffer.bytes

pub record IsSound (s : Slicer) : Type 0 where
  pub counted : IsCounted s
  pub staged : Staged s.state s

-- A step ends in a sound state, and `return true` has taken bytes from a buffer of `size`.
abbrev pub EndsSound : ℕ → Step → Type 0
EndsSound size (more, s) = IsSound s × (length s.buffer.bytes < size)
EndsSound size (wait, s) = IsSound s
EndsSound size (reject, s) = IsSound s
EndsSound size (caught, s) = ⊥
EndsSound size (uncaught, s) = ⊥
EndsSound size (broken, s) = ⊥

pub need-EndsSound :
    {A : Type 0} {n : ℕ} {m : Method A} {value : List ℕ → A} (size : ℕ) (s : Slicer)
    (k : A → Slicer → Step)
    → Takes m n value
    → IsSound s
    → (n ≤ length (unread s.buffer)
        → EndsSound size (k (value (take n (unread s.buffer))) (took n s)))
    → EndsSound size (need n m s k)
need-EndsSound {n} {m} size s k t h next = elim (few_or_enough n (length (unread s.buffer))) [
  | inl few ↦ rw (need-wait n m s k h.counted.placed few) h
  | inr enough ↦ rw (need-ready s k t h.counted.placed enough) (next enough)
]

pub took-IsCounted :
    (n : ℕ) (s : Slicer)
    → IsCounted s
    → s.buffer.read_pos + n < 2 ^ 16
    → n ≤ length (unread s.buffer)
    → IsCounted (took n s)
took-IsCounted n s h small enough = record {
  placed = unread-room s.buffer n h.placed enough;
  synced = omega (arith, h.synced);
  octets = h.octets;
}

value-IsOctet : (xs : List ℕ) → All IsOctet xs → word_value true (take 1 xs) < 256
unfolding word_value le_value
value-IsOctet [] h = omega arith
value-IsOctet (x ∷ xs) h = omega arith

pub id_len-IsOctet : (s : Slicer) → IsCounted s → word_value true (take 1 (unread s.buffer)) < 256
id_len-IsOctet s h =
    value-IsOctet (unread s.buffer) (All-drop IsOctet s.buffer.read_pos s.buffer.bytes h.octets)

pub initialize-IsSound : (s : Slicer) → IsSound (initialize s)
unfolding initialize Buffer.clear
initialize-IsSound s = record {
  counted = record { placed = omega arith; synced = refl; octets = tt };
  staged = refl;
}

pub body-EndsSound :
    (s : Slicer)
    → s.state ≡ State.body
    → IsSound s
    → EndsSound (length s.buffer.bytes) (parse_body s)
body-EndsSound s e h = elim (few_or_enough s.curr_body_len (length (unread s.buffer))) [
  | inl few ↦ rw (body-wait s h.counted.placed few) h
  | inr all ↦ rw (body-cut s h.counted.placed all (room all)) (
    record {
      counted = record {
        placed = omega arith;
        synced = refl;
        octets =
            All-drop IsOctet ((s.curr_header_len + s.curr_body_len) % 2 ^ 32) s.buffer.bytes
              h.counted.octets;
      };
      staged = refl;
    },
    omega (
      arith,
      h.counted.synced,
      staged.0,
      staged.1,
      staged.2,
      length-drop ((s.curr_header_len + s.curr_body_len) % 2 ^ 32) s.buffer.bytes,
      room all,
    ),
  )
]
  where
    staged : Staged State.body s
    staged = subst (λ t. Staged t s) e h.staged

    room :
        s.curr_body_len ≤ length (unread s.buffer)
        → s.curr_header_len + s.curr_body_len ≤ length s.buffer.bytes
    room all =
        omega (arith, h.counted.synced, unread-room s.buffer s.curr_body_len h.counted.placed all)
