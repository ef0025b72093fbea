-- ===== src/Server.antt =====
-- SharedPaintServer/PaintUser.h: the user of a room as the server keeps and sends it. The server's
-- PacketBufferUtil is, but for the names, CPacketBufferUtil of SharedPainter/PacketBuffer.h.
pub mod Interop
pub mod Messages
pub mod Rooms
pub mod Clients
use shared_painter.Common.{
  ℕ, Bool, true, false, List, [], ◌∷◌, ◌++◌, length, Option, Outcome, ok, and_then,
}
use shared_painter.Wire.{write_string8, write_int16, write_binary, read_int16, ◌⨟◌, emit}
use shared_painter.Wire.Fill.{Filler, fill, fill_string8, ◌▷◌, settle}
use shared_painter.Builder.{write_flag, read_flag}

-- `syncComplete` is not sent.
pub record Member : Type 0 where
  pub room_id : List ℕ
  pub user_id : List ℕ
  pub nick_name : List ℕ
  pub view_ip : List ℕ
  pub local_ip : List ℕ
  pub listen_tcp_port : ℕ
  pub super_peer_candidate : Bool
  pub sync_complete : Bool

unfoldable pub serialize_member : Member → Outcome (List ℕ)
unfolding ◌⨟◌ write_string8 write_int16 write_flag
serialize_member m = emit (
    write_string8 m.room_id
    ⨟ write_string8 m.user_id
    ⨟ write_string8 m.nick_name
    ⨟ write_string8 m.view_ip
    ⨟ write_string8 m.local_ip
    ⨟ write_int16 m.listen_tcp_port true
    ⨟ write_flag m.super_peer_candidate)

unfoldable pub fill_member : Filler Member
unfolding fill ◌▷◌ fill_string8 read_int16 read_flag
fill_member =
    fill_string8 (λ v m. record m { room_id = v })
    ▷ fill_string8 (λ v m. record m { user_id = v })
    ▷ fill_string8 (λ v m. record m { nick_name = v })
    ▷ fill_string8 (λ v m. record m { view_ip = v })
    ▷ fill_string8 (λ v m. record m { local_ip = v })
    ▷ fill (read_int16 true) (λ v m. record m { listen_tcp_port = v })
    ▷ fill read_flag (λ v m. record m { super_peer_candidate = v })

unfoldable pub deserialize_member : Member → List ℕ → ℕ → Outcome (Member × Option ℕ)
unfolding fill_member
deserialize_member m buf read_pos = settle (fill_member m buf read_pos)
