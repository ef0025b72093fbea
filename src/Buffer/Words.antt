-- ===== src/Buffer/Words.antt =====
-- The counted reads of a packet buffer: words and counted strings, complete and cut short.
use shared_painter.Common.{
  ℕ, ◌+◌, ◌^◌, ◌≤◌, ◌<◌, ◌≡◌, sym, ap, ◌∙◌, arith, true, List, [], ◌++◌, length, length-append,
  length-take, length-drop, take, drop, append-nil, take-append_left, drop-append_left,
  take_of_length_le, ==_self, ok, throw, packet_error,
}
use shared_painter.Wire.Bytes.{word_bytes, word_value, length-word_bytes, word_value-word_bytes}
use shared_painter.Buffer.{
  Buffer, ◌>>=◌, read_exactly, read_word, read_string8, read_string16, read_string32, write,
  write_string8, write_string16, write_string32,
}
use shared_painter.Buffer.Queue.{
  IsPlaced, unread, advance, read-front, unread-advance, unread-write, write-IsPlaced,
}

length-take_full : (n : ℕ) (xs : List ℕ) → n ≤ length xs → length (take n xs) ≡ n
length-take_full n xs h = omega (arith, length-take n xs)

pub unread-room :
    (b : Buffer) (n : ℕ) → IsPlaced b → n ≤ length (unread b) → b.read_pos + n ≤ length b.bytes
unread-room b n h k = omega (arith, length-drop b.read_pos b.bytes)

pub read_exactly-ready :
    (b : Buffer) (n : ℕ)
    → IsPlaced b
    → n ≤ length (unread b)
    → read_exactly n b ≡ (ok (take n (unread b)), advance b n)
unfolding read_exactly
read_exactly-ready b n h k = rw (read-front b n h, length-take_full n (unread b) k, ==_self n)

pub read_word-ready :
    (b : Buffer) (n : ℕ)
    → IsPlaced b
    → n ≤ length (unread b)
    → read_word n b ≡ (ok (word_value true (take n (unread b))), advance b n)
unfolding read_word
read_word-ready b n h k = rw (read_exactly-ready b n h k)

-- A read that finds too little throws, and what it found is consumed all the same.
pub read_exactly-short :
    (b : Buffer) (n : ℕ)
    → IsPlaced b
    → length (unread b) < n
    → read_exactly n b ≡ (throw packet_error, record b { read_pos = length b.bytes })
unfolding read_exactly
read_exactly-short b n h k =
    rw (read-front b n h, take_of_length_le n (unread b) (omega arith))
      (ground (arith, length-drop b.read_pos b.bytes))

-- Where the next bytes are `xs`, they are what is read.
read_exactly-next :
    (b : Buffer) (xs rest : List ℕ)
    → IsPlaced b
    → unread b ≡ xs ++ rest
    → read_exactly (length xs) b ≡ (ok xs, advance b (length xs))
read_exactly-next b xs rest h e =
    read_exactly-ready b (length xs) h (omega (arith, ap length e, length-append xs rest))
    ∙ rw (e, take-append_left xs rest)

read_word-next :
    (k : ℕ) (b : Buffer) (v : ℕ) (rest : List ℕ)
    → IsPlaced b
    → v < 256 ^ k
    → unread b ≡ word_bytes k true v ++ rest
    → read_word k b ≡ (ok v, advance b k)
read_word-next k b v rest h fits e =
    read_word-ready b k h (
      omega
        (arith, ap length e, length-append (word_bytes k true v) rest, length-word_bytes k true v))
    ∙ rw (e, front k v rest, word_value-word_bytes k true v fits)
  where
    front : (k v : ℕ) (rest : List ℕ) → take k (word_bytes k true v ++ rest) ≡ word_bytes k true v
    front k v rest =
        rw (ap (λ n. take n (word_bytes k true v ++ rest)) (sym (length-word_bytes k true v)))
          (take-append_left (word_bytes k true v) rest)

-- The buffer after `bs` was read from an exhausted one.
written-next : (b : Buffer) (bs : List ℕ) → IsPlaced b → unread b ≡ [] → unread (write bs b) ≡ bs
written-next b bs h e = unread-write bs b h ∙ rw e

-- A counted string is read back: its length in k bytes, then its bytes.
read_counted-next :
    (k : ℕ) (b : Buffer) (s rest : List ℕ)
    → IsPlaced b
    → length s < 256 ^ k
    → unread b ≡ word_bytes k true (length s) ++ (s ++ rest)
    → (read_word k >>= read_exactly) b ≡ (ok s, advance b (k + length s))
read_counted-next k b s rest h fits e = rw (read_word-next k b (length s) (s ++ rest) h fits e) (
    read_exactly-next (advance b k) s rest (omega (arith, room)) behind
    ∙ ap (λ n. (ok s, record b { read_pos = n })) (omega arith))
  where
    room : b.read_pos + k ≤ length b.bytes
    room = unread-room b k h (
        omega (
          arith,
          ap length e,
          length-append (word_bytes k true (length s)) (s ++ rest),
          length-word_bytes k true (length s),
        ))

    behind : unread (advance b k) ≡ s ++ rest
    behind =
        unread-advance b k
        ∙ rw (e) (
            ap (λ n. drop n (word_bytes k true (length s) ++ (s ++ rest)))
              (sym (length-word_bytes k true (length s)))
            ∙ drop-append_left (word_bytes k true (length s)) (s ++ rest))

module _ (b : Buffer) (s : List ℕ) (h : IsPlaced b) (e : unread b ≡ []) where
  pub unread-counted :
      (k : ℕ)
      → unread (write s (write (word_bytes k true (length s)) b))
        ≡ word_bytes k true (length s) ++ (s ++ [])
  unread-counted k =
      unread-write s (write (word_bytes k true (length s)) b)
        (write-IsPlaced (word_bytes k true (length s)) b h)
      ∙ rw (written-next b (word_bytes k true (length s)) h e, append-nil s)

  pub counted-IsPlaced : (k : ℕ) → IsPlaced (write s (write (word_bytes k true (length s)) b))
  counted-IsPlaced k =
      write-IsPlaced s (write (word_bytes k true (length s)) b)
        (write-IsPlaced (word_bytes k true (length s)) b h)

  -- On an exhausted buffer, a counted string that fits its length word is read back whole, and
  -- the position moves behind it, where the string and four bytes more leave the buffer below 2 ^ 31
  -- bytes. That is the limit of its int position, and below it each string fits the 32-bit word.
  pub read_string-write_string :
      length b.bytes + (4 + length s) < 2 ^ 31
      → (length s < 2 ^ 8
          → read_string8 (write_string8 s b) ≡ (ok s, advance (write_string8 s b) (1 + length s)))
        × (length s < 2 ^ 16
            → read_string16 (write_string16 s b)
              ≡ (ok s, advance (write_string16 s b) (2 + length s)))
        × (read_string32 (write_string32 s b) ≡ (ok s, advance (write_string32 s b) (4 + length s)))
  unfolding read_string8 read_string16 read_string32 write_string8 write_string16 write_string32
  read_string-write_string held = (
    λ fits. read_counted-next 1 _ s [] (counted-IsPlaced 1) fits (unread-counted 1),
    λ fits. read_counted-next 2 _ s [] (counted-IsPlaced 2) fits (unread-counted 2),
    read_counted-next 4 _ s [] (counted-IsPlaced 4) (omega (arith, held)) (unread-counted 4),
  )
