-- ===== src/Server/Rooms/Members.antt =====
-- SharedPaintRoom.cpp: who is written to, and the messages of a room.
use shared_painter.Common.{
  ℕ, ◌≡◌, refl, Bool, not, ◌&&◌, Bool-cases, inl, inr, List, [], ◌∷◌, ◌++◌, some, ok, same_text,
  Map, if◌then◌else◌,
}
use shared_painter.Wire.Write.{str8, emit_lem, Writes-string8, Writes-seq}
use shared_painter.Builder.Carries.{IsShort}
use shared_painter.Server.Messages.{Protocol, protocol, change_super_peer, left_user, request_sync}
use shared_painter.Server.Rooms.{Hub, Room, cast_to, room_cast, write_to}

-- The sessions of all entries, or of all but those of an id.
abbrev pub recipients : Map ℕ → List ℕ → Bool → List ℕ
recipients [] from_id send_myself = []
recipients ((id, c) ∷ m) from_id send_myself =
    let rest = recipients m from_id send_myself in
    if not send_myself && same_text id from_id then rest else c ∷ rest

-- The protocol, written to sessions in their order.
abbrev pub write_all : List ℕ → Protocol → Hub → Hub
write_all [] prot hub = hub
write_all (c ∷ cs) prot hub = write_all cs prot (record hub { sent = hub.sent ++ ((c, prot) ∷ []) })

-- A cast of a message writes it to each session of the map once, in their order, but for the entry of
-- the sender's id where it is not sent back.
pub cast_to-write_all :
    (m : Map ℕ) (from_id : List ℕ) (prot : Protocol) (send_myself : Bool) (hub : Hub)
    → cast_to m from_id (some prot) send_myself hub
      ≡ ok (write_all (recipients m from_id send_myself) prot hub)
unfolding cast_to write_to
cast_to-write_all [] from_id prot send_myself hub = refl
cast_to-write_all ((id, c) ∷ m) from_id prot send_myself hub =
    elim (Bool-cases (not send_myself && same_text id from_id)) [
      | inl skip ↦ rw skip (cast_to-write_all m from_id prot send_myself hub)
      | inr reach ↦ rw reach (cast_to-write_all m from_id prot send_myself _)
    ]

pub sessions-write_all :
    (cs : List ℕ) (prot : Protocol) (hub : Hub) → (write_all cs prot hub).sessions ≡ hub.sessions
sessions-write_all [] prot hub = refl
sessions-write_all (c ∷ cs) prot hub = sessions-write_all cs prot _

-- A cast of a message goes out, and leaves the sessions as they are.
pub room_cast_lem :
    (from_id : List ℕ) (prot : Protocol) (send_myself : Bool) (room : Room) (hub : Hub)
    → (hub' : Hub) × (room_cast from_id (some prot) send_myself room hub ≡ ok hub')
      × (hub'.sessions ≡ hub.sessions)
unfolding room_cast
room_cast_lem from_id prot send_myself room hub = (
  write_all (recipients room.client_map from_id send_myself) prot hub,
  cast_to-write_all room.client_map from_id prot send_myself hub,
  sessions-write_all (recipients room.client_map from_id send_myself) prot hub,
)

pub change_super_peer_lem :
    (id : List ℕ)
    → IsShort id
    → change_super_peer id ≡ ok (some (record { code = 6; to_id = []; payload = str8 id }))
unfolding change_super_peer protocol
change_super_peer_lem id h = rw (emit_lem (Writes-string8 id h)) refl

pub left_user_lem :
    (channel id : List ℕ)
    → IsShort channel
    → IsShort id
    → left_user channel id
      ≡ ok (some (record { code = 3; to_id = []; payload = str8 channel ++ str8 id }))
unfolding left_user protocol
left_user_lem channel id hc hi =
    rw (emit_lem (Writes-seq (Writes-string8 channel hc) (Writes-string8 id hi))) refl

pub request_sync_lem :
    (channel runner target : List ℕ)
    → IsShort channel
    → IsShort target
    → request_sync channel runner target
      ≡ ok (some (record { code = 7; to_id = runner; payload = str8 channel ++ str8 target }))
unfolding request_sync protocol
request_sync_lem channel runner target hc ht =
    rw (emit_lem (Writes-seq (Writes-string8 channel hc) (Writes-string8 target ht))) refl
