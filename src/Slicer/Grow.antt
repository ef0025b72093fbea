-- ===== src/Slicer/Grow.antt =====
-- PacketSlicer.h: a slicer that holds more, bytes behind those of its buffer and packets before
-- those that it has cut.
use shared_painter.Common.{
  ℕ, ◌+◌, ◌%◌, ◌^◌, ◌≤◌, ◌<◌, ◌≡◌, ap, ◌∙◌, arith, true, List, ◌++◌, length, length-append,
  length-take, take, take-append_of_le, drop-append_of_le, lt→ltb, le→ltb, ◌⊎◌, ok,
}
use shared_painter.Wire.Bytes.{word_value}
use shared_painter.Buffer
use shared_painter.Buffer.{Buffer, Method}
use shared_painter.Buffer.Queue.{IsPlaced, unread, advance, remaining_size-unread, read-front}
use shared_painter.Buffer.Words.{read_word-ready}
use shared_painter.Slicer.{Slicer, Packet, Step, need, wait}

abbrev pub grow : List Packet → List ℕ → Slicer → Slicer
grow before bs s = record s {
  buffer = record { bytes = s.buffer.bytes ++ bs; read_pos = s.buffer.read_pos };
  parsed_items = before ++ s.parsed_items;
}

-- The method takes the next n bytes and gives a value of theirs.
pub record Takes {A : Type 0} (m : Method A) (n : ℕ) (value : List ℕ → A) : Type 0 where
  pub takes :
      (b : Buffer)
      → IsPlaced b
      → n ≤ length (unread b)
      → m b ≡ (ok (value (take n (unread b))), advance b n)

pub Takes-read : (n : ℕ) → Takes (Buffer.read n) n (λ bs. bs)
Takes-read n = record {
  takes = λ b h k.
      read-front b n h
      ∙ ap (λ t. (ok (take n (unread b)), advance b t)) (omega (arith, length-take n (unread b)));
}

pub Takes-int8 : Takes Buffer.read_int8 1 (word_value true)
unfolding Buffer.read_int8
Takes-int8 = record { takes = λ b h k. read_word-ready b 1 h k }

pub Takes-int16 : Takes Buffer.read_int16 2 (word_value true)
unfolding Buffer.read_int16
Takes-int16 = record { takes = λ b h k. read_word-ready b 2 h k }

pub Takes-int32 : Takes Buffer.read_int32 4 (word_value true)
unfolding Buffer.read_int32
Takes-int32 = record { takes = λ b h k. read_word-ready b 4 h k }

-- The slicer after n bytes of the header were read.
abbrev pub took : ℕ → Slicer → Slicer
took n s = record s {
  buffer = advance s.buffer n;
  curr_header_len = (s.curr_header_len + n) % 2 ^ 16;
}

-- `need` waits exactly where fewer than n bytes are unread, and hands on their value otherwise.
pub need-wait :
    {A : Type 0} (n : ℕ) (m : Method A) (s : Slicer) (k : A → Slicer → Step)
    → IsPlaced s.buffer
    → length (unread s.buffer) < n
    → need n m s k ≡ (wait, s)
unfolding need
need-wait n m s k h few =
    rw (remaining_size-unread s.buffer h, lt→ltb (length (unread s.buffer)) n few)

pub need-ready :
    {A : Type 0} {n : ℕ} {m : Method A} {value : List ℕ → A} (s : Slicer) (k : A → Slicer → Step)
    → Takes m n value
    → IsPlaced s.buffer
    → n ≤ length (unread s.buffer)
    → need n m s k ≡ k (value (take n (unread s.buffer))) (took n s)
unfolding need
need-ready {n} s k t h enough = rw (
  remaining_size-unread s.buffer h,
  le→ltb (length (unread s.buffer)) n enough,
  t.takes s.buffer h enough,
)

pub unread-grow :
    (before : List Packet) (bs : List ℕ) (s : Slicer)
    → IsPlaced s.buffer
    → unread (grow before bs s).buffer ≡ unread s.buffer ++ bs
unread-grow before bs s h = drop-append_of_le s.buffer.read_pos s.buffer.bytes bs h

pub grow-IsPlaced :
    (before : List Packet) (bs : List ℕ) (s : Slicer)
    → IsPlaced s.buffer
    → IsPlaced (grow before bs s).buffer
grow-IsPlaced before bs s h = omega (arith, length-append s.buffer.bytes bs)

pub need-ready_grow :
    {A : Type 0} {n : ℕ} {m : Method A} {value : List ℕ → A} (before : List Packet) (bs : List ℕ)
    (s : Slicer) (k : A → Slicer → Step)
    → Takes m n value
    → IsPlaced s.buffer
    → n ≤ length (unread s.buffer)
    → need n m (grow before bs s) k
      ≡ k (value (take n (unread s.buffer))) (grow before bs (took n s))
need-ready_grow {n} {value} before bs s k t h enough =
    need-ready (grow before bs s) k t (grow-IsPlaced before bs s h)
      (rw (unread-grow before bs s h) (omega (arith, length-append (unread s.buffer) bs)))
    ∙ ap (λ xs. k (value xs) (grow before bs (took n s)))
        (rw (unread-grow before bs s h) (take-append_of_le n (unread s.buffer) bs enough))

pub few_or_enough : (n m : ℕ) → (m < n) ⊎ (n ≤ m)
few_or_enough n m = omega arith
