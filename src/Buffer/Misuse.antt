-- ===== src/Buffer/Misuse.antt =====
-- What the unchecked calls of a packet buffer do: a length that does not fit its byte, and the
-- overload of readString32 that returns its string.
use shared_painter.Common.{
  ℕ, ◌+◌, ◌*◌, ◌%◌, ◌≤◌, ◌<◌, ◌≡◌, ap, ◌∙◌, arith, true, List, [], ◌∷◌, append-nil, length, take,
  ok,
}
use shared_painter.Wire.Bytes.{word_bytes, word_value, le_value}
use shared_painter.Buffer.{
  Buffer, ◌>>=◌, read_exactly, read_word, read_string8, read_string32_value, write_string8,
  write_string32,
}
use shared_painter.Buffer.Queue.{IsPlaced, unread, advance, unread-advance}
use shared_painter.Buffer.Words.{
  read_exactly-ready, read_word-ready, unread-counted, counted-IsPlaced, unread-room,
}

-- Where a length byte n stands before at least n bytes, those are what is read.
byte_counted :
    (b : Buffer) (n : ℕ) (rest : List ℕ)
    → IsPlaced b
    → unread b ≡ n ∷ rest
    → n ≤ length rest
    → ((read_word 1 >>= read_exactly) b).0 ≡ ok (take n rest)
unfolding word_value le_value
byte_counted b n rest h e fits =
    rw (read_word-ready b 1 h (omega (arith, ap length e)), e, value)
      (rw (
        read_exactly-ready (advance b 1) n
            (omega (arith, unread-room b 1 h (omega (arith, ap length e))))
            (omega (arith, ap length behind)),
        behind,
      ))
  where
    value : n + 256 * 0 ≡ n
    value = omega arith

    behind : unread (advance b 1) ≡ rest
    behind = unread-advance b 1 ∙ rw e

-- A string of any length, written on an exhausted buffer, is read back cut to its length modulo
-- 256: the length byte has no more room, and nothing checks it.
pub read_string8-write_string8_mod :
    (b : Buffer) (s : List ℕ)
    → IsPlaced b
    → unread b ≡ []
    → (read_string8 (write_string8 s b)).0 ≡ ok (take (length s % 256) s)
unfolding read_string8 write_string8 word_bytes
read_string8-write_string8_mod b s h e =
    byte_counted _ (length s % 256) s (counted-IsPlaced b s h e 1)
      (unread-counted b s h e 1 ∙ ap (λ t. (length s % 256) ∷ t) (append-nil s)) (omega arith)

low_byte : (n : ℕ) → n < 256 → word_bytes 4 true n ≡ n ∷ 0 ∷ 0 ∷ 0 ∷ []
unfolding word_bytes
low_byte n h = ground arith

-- `std::string readString32()` does not read back what writeString32 wrote: the length is taken
-- from one byte of the four, and the other three come out as the first bytes of the string.
pub read_string32_value-write_string32 :
    (b : Buffer) (s : List ℕ)
    → IsPlaced b
    → unread b ≡ []
    → length s < 256
    → (read_string32_value (write_string32 s b)).0 ≡ ok (take (length s) (0 ∷ 0 ∷ 0 ∷ s))
unfolding read_string32_value write_string32
read_string32_value-write_string32 b s h e fits =
    byte_counted _ (length s) (0 ∷ 0 ∷ 0 ∷ s) (counted-IsPlaced b s h e 4)
      (unread-counted b s h e 4 ∙ rw (append-nil s, low_byte (length s) fits)) (omega arith)
