-- ===== src/Builder.antt =====
-- SharedPainter/CommonPacketBuilder.h: the header of a packet before its body, and the shape that
-- the classes of the *PacketBuilder.h files share.
pub mod Carries
pub mod Window
pub mod Paint
pub mod ScreenShare
pub mod Peers
pub mod System
pub mod Joins
pub mod Delivery
pub mod Tasks
pub mod Backgrounds
use shared_painter.Common.{
  ℕ, ◌≤◌, ◌≡◌, Bool, true, List, [], ◌++◌, length, append_assoc, Option, none, some, Outcome, ok,
  and_then, catch, attempt, ◌==◌, if◌then◌else◌,
}
use shared_painter.Wire.{
  write_int16, write_int32, write_string8, ◌⨟◌, emit, Writer, Reader, write_int8, read_int8, ◌>>=◌,
  done,
}
use shared_painter.Wire.Bytes.{word_bytes}
use shared_painter.Wire.Write.{
  str8, emit_lem, Writes-seq, Writes-int16, Writes-int32, Writes-string8,
}
use shared_painter.Slicer.{net_magic_code}

-- `fromId ? *fromId : emptyString`
abbrev pub text_or_empty : Option (List ℕ) → List ℕ
text_or_empty none = []
text_or_empty (some id) = id

unfoldable pub make_packet : ℕ → List ℕ → Option (List ℕ) → Option (List ℕ) → Outcome (List ℕ)
unfolding ◌⨟◌ write_int16 write_int32 write_string8
make_packet code body from_id to_id =
    and_then
      (emit (
        write_int16 net_magic_code true
        ⨟ write_int16 code true
        ⨟ write_string8 (text_or_empty from_id)
        ⨟ write_string8 (text_or_empty to_id)
        ⨟ write_int32 (length body) true))
      (λ head. ok (head ++ body))

-- `make` of a class: the body is written, then the packet is made; an exception gives "".
unfoldable pub send : ℕ → Writer → Option (List ℕ) → Option (List ℕ) → Outcome (List ℕ)
unfolding make_packet
send code w from_id to_id =
    catch (and_then (emit w) (λ body. make_packet code body from_id to_id)) []

-- `parse` of a class: the fields of the body from position 0; an exception gives false.
unfoldable pub parse_with : {A : Type 0} → Reader A → List ℕ → Outcome (Option A)
parse_with r body = attempt (and_then (r body 0) (λ p. ok p.0))

-- `writeInt8( …, f ? 1 : 0 )`
unfoldable pub write_flag : Bool → Writer
unfolding write_int8
write_flag f = write_int8 (if f then 1 else 0)

-- `readInt8( …, t ); f = t == 1;`
unfoldable pub read_flag : Reader Bool
unfolding ◌>>=◌ read_int8 done
read_flag = do t ← read_int8; done (t == 1)

-- The bytes of a packet on the wire: magic, code, the two counted ids, the body's length, the body.
abbrev pub frame : ℕ → List ℕ → List ℕ → List ℕ → List ℕ
frame code from_id to_id body =
    word_bytes 2 true net_magic_code
    ++ (word_bytes 2 true code
        ++ (str8 from_id ++ (str8 to_id ++ (word_bytes 4 true (length body) ++ body))))

-- With ids that fit their length bytes the packet is made, and it is the frame.
pub make_packet-frame :
    (code : ℕ) (body : List ℕ) (from_id to_id : Option (List ℕ))
    → length (text_or_empty from_id) ≤ 0xff
    → length (text_or_empty to_id) ≤ 0xff
    → make_packet code body from_id to_id
      ≡ ok (frame code (text_or_empty from_id) (text_or_empty to_id) body)
unfolding make_packet
make_packet-frame code body from_id to_id hf ht =
    rw
      (emit_lem (
        Writes-seq (Writes-int16 net_magic_code true) (
          Writes-seq (Writes-int16 code true) (
            Writes-seq (Writes-string8 (text_or_empty from_id) hf) (
              Writes-seq (Writes-string8 (text_or_empty to_id) ht)
                (Writes-int32 (length body) true))))))
      (simp append_assoc)
