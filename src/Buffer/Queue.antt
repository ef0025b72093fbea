-- ===== src/Buffer/Queue.antt =====
-- PacketBuffer.h and .cpp, CPacketBuffer: reads and writes against a queue of bytes.
use shared_painter.Common.{
  ℕ, zero, suc, ◌+◌, ◌≤◌, ◌≡◌, refl, sym, ap, ◌∙◌, arith, List, [], ◌∷◌, ◌++◌, length,
  length-append, length-drop, length-take, take, drop, drop-append_of_le, drop-add, le→ltb, le→leb,
  Outcome, ok,
}
use shared_painter.Wire.Read.{read-inside}
use shared_painter.Buffer.{Buffer, empty, write, read, peek, remaining_size, fast_forward, rewind}

-- The read position lies in the string or at its end.
abbrev pub IsPlaced : Buffer → Type 0
IsPlaced b = b.read_pos ≤ length b.bytes

-- The bytes that are still to be read.
abbrev pub unread : Buffer → List ℕ
unread b = drop b.read_pos b.bytes

abbrev pub advance : Buffer → ℕ → Buffer
advance b n = record b { read_pos = b.read_pos + n }

pub remaining_size-unread : (b : Buffer) → IsPlaced b → remaining_size b ≡ length (unread b)
unfolding remaining_size
remaining_size-unread b h =
    rw (le→leb b.read_pos (length b.bytes) h) (sym (length-drop b.read_pos b.bytes))

pub fast_forward-inside :
    (b : Buffer) (n : ℕ) → b.read_pos + n ≤ length b.bytes → fast_forward n b ≡ (ok tt, advance b n)
unfolding fast_forward
fast_forward-inside b n h = rw (le→ltb (length b.bytes) (b.read_pos + n) h)

length-front :
    (b : Buffer) (n : ℕ) → IsPlaced b → b.read_pos + length (take n (unread b)) ≤ length b.bytes
length-front b n h = omega (arith, length-take n (unread b), length-drop b.read_pos b.bytes)

-- `read` takes the front of what is unread, as much as there is.
pub read-front :
    (b : Buffer) (n : ℕ)
    → IsPlaced b
    → read n b ≡ (ok (take n (unread b)), advance b (length (take n (unread b))))
unfolding read peek
read-front b n h =
    rw (read-inside b.bytes b.read_pos n h, fast_forward-inside b _ (length-front b n h))

drop-length-take {ℓ} : {A : Type ℓ} (n : ℕ) (xs : List A) → drop (length (take n xs)) xs ≡ drop n xs
drop-length-take zero xs = refl
drop-length-take (suc n) [] = refl
drop-length-take (suc n) (x ∷ xs) = drop-length-take n xs

pub unread-advance : (b : Buffer) (n : ℕ) → unread (advance b n) ≡ drop n (unread b)
unread-advance b n = drop-add b.read_pos n b.bytes

pub unread-write : (bs : List ℕ) (b : Buffer) → IsPlaced b → unread (write bs b) ≡ unread b ++ bs
unfolding write
unread-write bs b h = drop-append_of_le b.read_pos b.bytes bs h

pub write-IsPlaced : (bs : List ℕ) (b : Buffer) → IsPlaced b → IsPlaced (write bs b)
unfolding write
write-IsPlaced bs b h = omega (arith, length-append b.bytes bs)

-- What a client does with the buffer, and what it sees: the bytes of each read.
pub data Action : Type 0 where
  put : List ℕ → Action
  get : ℕ → Action

unfoldable pub run : List Action → Buffer → List (Outcome (List ℕ))
run [] b = []
run (put bs ∷ todo) b = run todo (write bs b)
run (get n ∷ todo) b = (read n b).0 ∷ run todo (read n b).1

-- The same actions on a plain queue.
unfoldable pub run_queue : List Action → List ℕ → List (Outcome (List ℕ))
run_queue [] q = []
run_queue (put bs ∷ todo) q = run_queue todo (q ++ bs)
run_queue (get n ∷ todo) q = ok (take n q) ∷ run_queue todo (drop n q)

run-from : (todo : List Action) (b : Buffer) → IsPlaced b → run todo b ≡ run_queue todo (unread b)
unfolding run run_queue
run-from [] b h = refl
run-from (put bs ∷ todo) b h =
    run-from todo (write bs b) (write-IsPlaced bs b h) ∙ ap (run_queue todo) (unread-write bs b h)
run-from (get n ∷ todo) b h = rw (read-front b n h) (
    ap (λ t. ok (take n (unread b)) ∷ t)
      (run-from todo (advance b (length (take n (unread b)))) (length-front b n h)
        ∙ ap (run_queue todo) (unread-advance b _ ∙ drop-length-take n (unread b))))

-- For every sequence of writes and reads on a new buffer, the reads give what a first-in
-- first-out queue gives, and none throws.
pub run-run_queue : (todo : List Action) → run todo empty ≡ run_queue todo []
unfolding empty
run-run_queue todo = run-from todo empty (omega arith)

-- `rewind` by the count of a read undoes the read.
pub rewind-read :
    (b : Buffer) (n : ℕ)
    → IsPlaced b
    → rewind (length (take n (unread b))) (read n b).1 ≡ (ok tt, b)
unfolding rewind
rewind-read b n h = rw (read-front b n h) (ground arith)
