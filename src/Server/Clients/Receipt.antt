-- ===== src/Server/Clients/Receipt.antt =====
-- SharedPaintClient.cpp: onSharedPaintReceived, with the packets that a session is expected to send.
use shared_painter.Common.{
  ℕ, ◌≡◌, subst, false, Bool-cases, inl, inr, List, [], Option, none, some, ok, find, All, All-find,
  All-map, All-both, ◌==◌, ==_iff,
}
use shared_painter.Builder.Carries.{IsShort}
use shared_painter.Wire.Fill.{settle}
use shared_painter.Server.{Member, deserialize_member}
use shared_painter.Server.Interop.{IsSent}
use shared_painter.Server.Messages.{Protocol}
use shared_painter.Server.Rooms.{user_of}
use shared_painter.Server.Rooms.Elections.{id_in}
use shared_painter.Server.Rooms.Arrivals.{IsAway}
use shared_painter.Server.Clients.{
  Server, find_user, fill_nick_name, on_shared_paint_received, handle_sync_request,
}
use shared_painter.Server.Clients.Hosting.{IsHosted, IsServed, Serves, IsHosted-at}
use shared_painter.Server.Clients.Members.{IsMember, member_room, IsMember-at, leave_room-IsServed}
use shared_painter.Server.Clients.Reachable.{handle_tcp_ack-IsServed}
use shared_painter.Server.Clients.Answers.{handle_join-IsWelcome}
use shared_painter.Server.Clients.Casts.{relay-IsServed, sync_start-IsServed}
use shared_painter.Server.Clients.Nicknames.{handle_change_nick_name-IsServed}

-- What a session may send: a join, where it is no member, under an id that is free in the room, both
-- as they are stored of the payload, whole or cut off; a leave, an acknowledgement or a request for a
-- sync where it is a member; a nick name that fits its length byte; and packets with other codes.
pub data Expected (c : ℕ) (prot : Protocol) (srv : Server) : Type 0 where
  joins :
      (m : Member) (r : Option ℕ)
      → prot.code ≡ 0
      → (IsMember c srv → ⊥)
      → deserialize_member (user_of c srv.hub) prot.payload 0 ≡ ok (m, r)
      → IsSent (record m { view_ip = (srv.hub.sessions c).peer_ip })
      → find_user m.room_id m.user_id srv ≡ none
      → Expected c prot srv
  leaves : prot.code ≡ 3 → IsMember c srv → Expected c prot srv
  acks : prot.code ≡ 5 → IsMember c srv → Expected c prot srv
  syncs : prot.code ≡ 7 → IsMember c srv → Expected c prot srv
  renames :
      (user_id nick_name : List ℕ) (r : Option ℕ)
      → prot.code ≡ 11
      → settle (fill_nick_name ([], []) prot.payload 0) ≡ ok ((user_id, nick_name), r)
      → IsShort nick_name
      → Expected c prot srv
  others :
      (prot.code == 0) ≡ false
      → (prot.code == 3) ≡ false
      → (prot.code == 5) ≡ false
      → (prot.code == 7) ≡ false
      → (prot.code == 11) ≡ false
      → Expected c prot srv

-- A session that is not where it says is nowhere.
stranger-IsAway :
    (c : ℕ) (srv : Server)
    → IsServed srv
    → (IsMember c srv → ⊥)
    → All (λ e. IsAway c e.1.client_map) srv.rooms
stranger-IsAway c srv h stranger =
    All-map (λ e. (find e.0 srv.rooms ≡ some e.1) × IsHosted e.0 e.1 srv.hub.sessions)
      (λ e. IsAway c e.1.client_map) srv.rooms
      (λ e p.
        All-map
          (λ x.
            (find x.0 e.1.client_map ≡ some x.1)
            × ((id_in srv.hub.sessions x.1 ≡ x.0)
                × (((user_of x.1 srv.hub).room_id ≡ e.0) × IsSent (user_of x.1 srv.hub))))
          (λ x. (x.1 == c) ≡ false) e.1.client_map
          (λ x q. elim (Bool-cases (x.1 == c)) [
            | inl same ↦
                let one : x.1 ≡ c = (==_iff x.1 c).0 same in
                absurd (
                  stranger (
                    IsMember-at c srv e.0 x.0 e.1
                      (subst (λ d. (user_of d srv.hub).room_id ≡ e.0) one q.1.1.0)
                      (subst (λ d. (user_of d srv.hub).user_id ≡ x.0) one q.1.0) p.0
                      (subst (λ d. find x.0 e.1.client_map ≡ some d) one q.0)))
            | inr other ↦ other
          ])
          (All-both (λ x. find x.0 e.1.client_map ≡ some x.1)
            (λ x.
              (id_in srv.hub.sessions x.1 ≡ x.0)
              × (((user_of x.1 srv.hub).room_id ≡ e.0) × IsSent (user_of x.1 srv.hub)))
            e.1.client_map p.1.elected.sound.found
            (All-both (λ x. id_in srv.hub.sessions x.1 ≡ x.0)
              (λ x. ((user_of x.1 srv.hub).room_id ≡ e.0) × IsSent (user_of x.1 srv.hub))
              e.1.client_map p.1.elected.sound.keyed p.1.housed)))
      (All-both (λ e. find e.0 srv.rooms ≡ some e.1) (λ e. IsHosted e.0 e.1 srv.hub.sessions)
        srv.rooms h.mapped h.hosted)

member-IsSent : (c : ℕ) (srv : Server) → IsServed srv → IsMember c srv → IsSent (user_of c srv.hub)
member-IsSent c srv h member =
    let (room, at, inside) =
      member_room (user_of c srv.hub).room_id (user_of c srv.hub).user_id c srv member in
    (All-find
      (λ e.
        ((user_of e.1 srv.hub).room_id ≡ (user_of c srv.hub).room_id)
        × IsSent (user_of e.1 srv.hub))
      (user_of c srv.hub).user_id room.client_map c
      (IsHosted-at (user_of c srv.hub).room_id room srv h at).housed inside).1

-- In a server whose rooms satisfy the invariant, an expected packet is handled with no exception and no
-- null pointer, and the rooms satisfy the invariant again.
pub on_shared_paint_received-IsServed :
    (c : ℕ) (prot : Protocol) (srv : Server)
    → IsServed srv
    → Expected c prot srv
    → Serves IsServed (on_shared_paint_received c prot srv)
unfolding on_shared_paint_received handle_sync_request
on_shared_paint_received-IsServed c prot srv h (joins m r code stranger parsed sent free) =
    let done =
      handle_join-IsWelcome c prot m r srv h (stranger-IsAway c srv h stranger) parsed sent free in
    rw code (record { server = done.server; returns = done.returns; holds = done.holds.1.0 })
on_shared_paint_received-IsServed c prot srv h (leaves code member) =
    let done = leave_room-IsServed c srv h member in
    rw code (record { server = done.server; returns = done.returns; holds = done.holds.0 })
on_shared_paint_received-IsServed c prot srv h (acks code member) =
    let done = handle_tcp_ack-IsServed c srv h member in
    rw code (record { server = done.server; returns = done.returns; holds = done.holds.0 })
on_shared_paint_received-IsServed c prot srv h (syncs code member) =
    let done =
      sync_start-IsServed (user_of c srv.hub).room_id (user_of c srv.hub).user_id srv h
        (member-IsSent c srv h member).user_id_short in
    rw code (record { server = done.server; returns = done.returns; holds = done.holds.0 })
on_shared_paint_received-IsServed c prot srv h (renames user_id nick_name r code parsed short) =
    simp code (handle_change_nick_name-IsServed c prot user_id nick_name r srv h parsed short)
on_shared_paint_received-IsServed c prot srv h (others a b d e f) =
    let done = relay-IsServed c prot srv h in
    rw (a, b, d, e, f)
      (record { server = done.server; returns = done.returns; holds = done.holds.0 })
