-- ===== src/Buffer.antt =====
-- SharedPainter/PacketBuffer.h and PacketBuffer.cpp, class CPacketBuffer: a byte string that is
-- written at its end and read at a position. `littleEndianMode` is the constant true; sizes stay
-- below 2 ^ 31, so that `int` holds them; Buffer/Sizes has the functions of `int` themselves.
-- One thread holds the recursive lock during a call.
pub mod Queue
pub mod Sizes
pub mod Words
pub mod Misuse
use shared_painter.Common.{
  ℕ, zero, suc, ◌+◌, ◌-◌, ◌%◌, ◌^◌, Bool, true, false, ◌&&◌, not, List, [], ◌∷◌, ◌++◌, length, take,
  drop, ltb, leb, ◌==◌, if◌then◌else◌, Outcome, ok, throw, fault, packet_error, out_of_range,
  and_then,
}
use shared_painter.Wire
use shared_painter.Wire.{insert}
use shared_painter.Wire.Bytes.{word_bytes, word_value}

pub record Buffer : Type 0 where
  pub bytes : List ℕ
  pub read_pos : ℕ

unfoldable pub empty : Buffer
empty = record { bytes = []; read_pos = 0 }

-- A method: its result or exception, and the buffer that it leaves in either case.
abbrev pub Method : Type 0 → Type 0
Method A = Buffer → Outcome A × Buffer

abbrev pub continue_with : {A B : Type 0} → Outcome A × Buffer → (A → Method B) → Outcome B × Buffer
continue_with (ok a, b) k = k a b
continue_with (throw e, b) k = (throw e, b)
continue_with (fault, b) k = (fault, b)

infixl 5 ◌>>=◌
abbrev pub ◌>>=◌ : {A B : Type 0} → Method A → (A → Method B) → Method B
◌>>=◌ m k b = continue_with (m b) k

abbrev pub returns : {A : Type 0} → A → Method A
returns a b = (ok a, b)

abbrev pub throws : {A : Type 0} → Method A
throws b = (throw packet_error, b)

unfoldable pub total_size : Buffer → ℕ
total_size b = length b.bytes

-- `buffer_.size() - readPos_` wraps where the position is past the end.
unfoldable pub remaining_size : Buffer → ℕ
remaining_size b =
    if leb b.read_pos (length b.bytes)
    then length b.bytes - b.read_pos
    else 2 ^ 64 - (b.read_pos - length b.bytes)

unfoldable pub write : List ℕ → Buffer → Buffer
write bs b = record b { bytes = b.bytes ++ bs }

unfoldable pub clear : Buffer → Buffer
clear b = record { bytes = []; read_pos = 0 }

unfoldable pub erase : ℕ → ℕ → Method ℕ
erase pos size b =
    if ltb (length b.bytes) (pos + size)
    then (throw packet_error, b)
    else (ok size, record b { bytes = take pos b.bytes ++ drop (pos + size) b.bytes })

unfoldable pub insert_int8 : ℕ → ℕ → Method ℕ
insert_int8 pos v b = elim (insert b.bytes pos ((v % 256) ∷ [])) [
  | ok bs ↦ (ok 1, record b { bytes = bs })
  | throw e ↦ (throw e, b)
  | fault ↦ (fault, b)
]

unfoldable pub set_read_pos : ℕ → Method (Unit {0})
set_read_pos pos b =
    if not (pos == 0) && leb (length b.bytes) pos
    then (throw packet_error, b)
    else (ok tt, record b { read_pos = pos })

unfoldable pub rewind : ℕ → Method (Unit {0})
rewind size b =
    if ltb b.read_pos size
    then (throw packet_error, b)
    else (ok tt, record b { read_pos = b.read_pos - size })

unfoldable pub fast_forward : ℕ → Method (Unit {0})
fast_forward size b =
    if ltb (length b.bytes) (b.read_pos + size)
    then (throw packet_error, b)
    else (ok tt, record b { read_pos = b.read_pos + size })

unfoldable pub throw_away : ℕ → Method (Unit {0})
unfolding fast_forward
throw_away = fast_forward

-- The bytes from the current pointer on, at most `size` of them; nothing is consumed.
unfoldable pub peek : ℕ → Method (List ℕ)
peek size b = (Wire.read b.bytes b.read_pos size, b)

unfoldable pub read : ℕ → Method (List ℕ)
unfolding peek fast_forward Wire.read
read size = do bs ← peek size; fast_forward (length bs) >>= λ _. returns bs

unfoldable pub to_string_from_base : Buffer → List ℕ
to_string_from_base b = b.bytes

unfoldable pub to_string_from_current : Buffer → Outcome (List ℕ)
unfolding remaining_size Wire.read
to_string_from_current b = Wire.read b.bytes b.read_pos (remaining_size b)

unfoldable pub write_int8 : ℕ → Buffer → Buffer
unfolding write
write_int8 v = write (word_bytes 1 true v)

unfoldable pub write_int16 : ℕ → Buffer → Buffer
unfolding write
write_int16 v = write (word_bytes 2 true v)

unfoldable pub write_int32 : ℕ → Buffer → Buffer
unfolding write
write_int32 v = write (word_bytes 4 true v)

-- The size is converted to the word that counts it, with no test that it fits.
unfoldable pub write_string8 : List ℕ → Buffer → Buffer
unfolding write_int8
write_string8 s b = write s (write_int8 (length s) b)

unfoldable pub write_string16 : List ℕ → Buffer → Buffer
unfolding write_int16
write_string16 s b = write s (write_int16 (length s) b)

unfoldable pub write_string32 : List ℕ → Buffer → Buffer
unfolding write_int32
write_string32 s b = write s (write_int32 (length s) b)

write_strings : List (List ℕ) → Buffer → Buffer
unfolding write_string32
write_strings [] b = b
write_strings (s ∷ ss) b = write_strings ss (write_string32 s b)

unfoldable pub write_string32_list : List (List ℕ) → Buffer → Buffer
unfolding write_strings
write_string32_list ss b = write_strings ss (write_int32 (length ss) b)

-- `if( read( …, k ) != k ) throw`; the bytes of a short read are consumed.
unfoldable pub read_exactly : ℕ → Method (List ℕ)
unfolding read
read_exactly k = do bs ← read k; if length bs == k then returns bs else throws

unfoldable pub read_word : ℕ → Method ℕ
unfolding read_exactly
read_word k = do bs ← read_exactly k; returns (word_value true bs)

unfoldable pub read_int8 : Method ℕ
unfolding read_word
read_int8 = read_word 1

unfoldable pub read_int16 : Method ℕ
unfolding read_word
read_int16 = read_word 2

unfoldable pub read_int32 : Method ℕ
unfolding read_word
read_int32 = read_word 4

unfoldable pub read_string8 : Method (List ℕ)
unfolding read_int8 read_exactly
read_string8 = do len ← read_int8; read_exactly len

unfoldable pub read_string16 : Method (List ℕ)
unfolding read_int16 read_exactly
read_string16 = do len ← read_int16; read_exactly len

-- `readString32( std::string &value )`
unfoldable pub read_string32 : Method (List ℕ)
unfolding read_int32 read_exactly
read_string32 = do len ← read_int32; read_exactly len

-- `std::string readString32()`, which takes the length from `readInt8()`.
unfoldable pub read_string32_value : Method (List ℕ)
unfolding read_int8 read_exactly
read_string32_value = do len ← read_int8; read_exactly len
