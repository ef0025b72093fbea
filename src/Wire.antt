-- ===== src/Wire.antt =====
-- SharedPainter/PacketBuffer.h, class CPacketBufferUtil: the fields of a packet in a std::string.
-- A string is a list of bytes. A machine word is a number below 2 ^ w; a signed one and a double
-- are their bit patterns, so `bitwise_cast` is the identity. The host is little-endian.
pub mod Bytes
pub mod Write
pub mod Read
pub mod Bounds
pub mod Fill
use shared_painter.Common.{
  ℕ, zero, suc, ◌+◌, ◌-◌, Bool, true, false, List, [], ◌∷◌, ◌++◌, length, take, drop, ltb, leb,
  ◌==◌, if◌then◌else◌, Outcome, ok, throw, fault, Thrown, packet_error, out_of_range, and_then,
}
use Bytes.{word_bytes, word_value}

-- A call `f( buf, pos, … )` gives the new buffer and the count that the caller adds to `pos`.
abbrev pub Writer : Type 0
Writer = List ℕ → ℕ → Outcome (List ℕ × ℕ)

-- `buf.insert( pos, bytes )`
unfoldable pub insert : List ℕ → ℕ → List ℕ → Outcome (List ℕ)
insert buf pos bs =
    if leb pos (length buf) then ok (take pos buf ++ (bs ++ drop pos buf)) else throw out_of_range

unfoldable pub write_binary : List ℕ → Writer
write_binary bs buf pos = and_then (insert buf pos bs) (λ b. ok (b, length bs))

unfoldable pub write_int8 : ℕ → Writer
write_int8 v = write_binary (word_bytes 1 true v)

unfoldable pub write_int16 : ℕ → Bool → Writer
write_int16 v le = write_binary (word_bytes 2 le v)

unfoldable pub write_int32 : ℕ → Bool → Writer
write_int32 v le = write_binary (word_bytes 4 le v)

unfoldable pub write_double : ℕ → Writer
write_double bits = write_binary (word_bytes 8 true bits)

-- `pos += f( buf, pos, … ); pos += g( buf, pos, … );`
infixr 20 ◌⨟◌
unfoldable pub ◌⨟◌ : Writer → Writer → Writer
◌⨟◌ f g buf pos = and_then (f buf pos) λ p. and_then (g p.0 (pos + p.1)) λ q. ok (q.0, p.1 + q.1)

-- The length is written as a word of k bytes, then the text is inserted behind it.
write_string : ℕ → ℕ → List ℕ → Bool → Writer
unfolding ◌⨟◌
write_string k max s le buf pos =
    if ltb max (length s)
    then throw packet_error
    else (write_binary (word_bytes k le (length s)) ⨟ write_binary s) buf pos

unfoldable pub write_string8 : List ℕ → Writer
unfolding write_string
write_string8 s = write_string 1 0xff s true

unfoldable pub write_string16 : List ℕ → Bool → Writer
unfolding write_string
write_string16 = write_string 2 0xffff

unfoldable pub write_string32 : List ℕ → Bool → Writer
unfolding write_string
write_string32 = write_string 4 0xffff_ffff

-- The body of a packet: the writers run on an empty string, from position 0.
abbrev pub emit : Writer → Outcome (List ℕ)
emit w = and_then (w [] 0) (λ p. ok (p.0))

-- A call `f( buf, pos, value )` gives the value and the count that the caller adds to `pos`.
abbrev pub Reader : Type 0 → Type 0
Reader A = List ℕ → ℕ → Outcome (A × ℕ)

-- The size is cut to what is left. For `pos` past the end, `buf.size() - pos` wraps and the copy
-- runs out of the buffer.
unfoldable pub read : List ℕ → ℕ → ℕ → Outcome (List ℕ)
read buf pos size =
    if ltb (length buf) pos
    then fault
    else ok (take (if ltb (length buf - pos) size then length buf - pos else size) (drop pos buf))

-- `if( read( buf, pos, bytes, k ) == k )`
read_exactly : ℕ → Reader (List ℕ)
unfolding read
read_exactly k buf pos =
    and_then (read buf pos k) λ bs. if length bs == k then ok (bs, k) else throw packet_error

unfoldable pub read_word : ℕ → Bool → Reader ℕ
unfolding read_exactly
read_word k le buf pos = and_then (read_exactly k buf pos) λ p. ok (word_value le p.0, p.1)

unfoldable pub read_int8 : Reader ℕ
unfolding read_word
read_int8 = read_word 1 true

unfoldable pub read_int16 : Bool → Reader ℕ
unfolding read_word
read_int16 = read_word 2

unfoldable pub read_int32 : Bool → Reader ℕ
unfolding read_word
read_int32 = read_word 4

unfoldable pub read_double : Reader ℕ
unfolding read_word
read_double = read_word 8 true

-- `pos += f( buf, pos, a );` and then the rest, which may use `a`.
infixl 5 ◌>>=◌
unfoldable pub ◌>>=◌ : {A B : Type 0} → Reader A → (A → Reader B) → Reader B
◌>>=◌ r k buf pos =
    and_then (r buf pos) λ p. and_then (k p.0 buf (pos + p.1)) λ q. ok (q.0, p.1 + q.1)

-- The end of a parse: nothing more is read.
unfoldable pub done : {A : Type 0} → A → Reader A
done a buf pos = ok (a, 0)

unfoldable pub read_string8 : Reader (List ℕ)
unfolding ◌>>=◌ read_exactly read_int8
read_string8 = do len ← read_int8; read_exactly len

unfoldable pub read_string16 : Bool → Reader (List ℕ)
unfolding ◌>>=◌ read_exactly read_int16
read_string16 le = do len ← read_int16 le; read_exactly len

unfoldable pub read_string32 : Bool → Reader (List ℕ)
unfolding ◌>>=◌ read_exactly read_int32
read_string32 le = do len ← read_int32 le; read_exactly len
