-- ===== src/Server/Clients/Welcome.antt =====
-- SharedPaintClient.cpp: what _handle_CODE_SYSTEM_JOIN_TO_SERVER does after joinRoom: the others hear
-- of the session, it takes the right of the super peer where it can, and it gets its answer.
use shared_painter.Common.{
  ℕ, ◌≡◌, refl, sym, subst, ◌∙◌, Bool, false, Bool-cases, inl, inr, List, [], ◌∷◌, ◌++◌, length,
  some, Outcome, ok, and_then, Map, find, ◌==◌,
}
use shared_painter.Server.{Member}
use shared_painter.Server.Interop.{IsSent, member_bytes, serialize_member_lem}
use shared_painter.Server.Messages.{Protocol, protocol, new_joiner, response_join}
use shared_painter.Server.Rooms.{
  Session, Hub, Room, user_of, room_cast, set_super_peer_session, append_members, write_to,
}
use shared_painter.Server.Rooms.Members.{room_cast_lem}
use shared_painter.Server.Rooms.Elections.{IsElected, id_in, set_super_peer_session-IsElected}
use shared_painter.Server.Rooms.Arrivals.{added-IsElected}
use shared_painter.Server.Clients.{
  Server, only_hub, manager_room_cast, check_if_super_peer, manager_set_super_peer_session,
  manager_joiner_info, current_super_peer_session, id_of,
}
use shared_painter.Server.Clients.Hosting.{
  IsHosted, IsHoused, Inside, Serves, leaving, with_room-Inside,
}
use shared_painter.Server.Clients.Entry.{IsJoined}

-- The room when the session has joined, alone or not.
abbrev pub IsJoining : ℕ → List ℕ → Bool → Room → (ℕ → Session) → Type 0
IsJoining c id first room sessions =
    IsJoined c id room sessions × (first ≡ (length room.client_map == 1))

-- The room after the session has maybe become its super peer.
abbrev pub IsArrived : ℕ → List ℕ → Bool → Room → (ℕ → Session) → Type 0
IsArrived c id first room sessions =
    IsHosted id room sessions
    × (find (id_in sessions c) room.client_map ≡ some c)
    × (first ≡ (length room.client_map == 1))

pub serve_then :
    (P Q : Server → Type 0) (m : Outcome Server) (k : Server → Outcome Server)
    → Serves P m
    → ((t : Server) → P t → Serves Q (k t))
    → Serves Q (and_then m k)
serve_then P Q m k h f =
    let next = f h.server h.holds in
    record { server = next.server; returns = rw h.returns next.returns; holds = next.holds }

pub new_joiner_lem :
    (m : Member)
    → IsSent m
    → new_joiner m ≡ ok (some (record { code = 0; to_id = []; payload = member_bytes m }))
unfolding new_joiner protocol
new_joiner_lem m h = rw (serialize_member_lem m h) refl

-- A cast goes to the room and changes no session.
pub cast-Inside :
    (id from_id : List ℕ) (X : Room → (ℕ → Session) → Type 0) (prot : Protocol) (srv : Server)
    → Inside id X srv
    → Serves
        (λ t. Inside id X t × (t.hub.sessions ≡ srv.hub.sessions))
        (manager_room_cast id from_id (some prot) false srv)
unfolding manager_room_cast
cast-Inside id from_id X prot srv h =
    with_room-Inside id X X (only_hub (room_cast from_id (some prot) false)) srv
      (λ r k.
        let (hub', cast, kept) = room_cast_lem from_id prot false r srv.hub in
        record {
          room = r;
          hub = hub';
          returns = rw cast refl;
          holds = (subst (X r) (sym kept) k, kept);
        })
      h

pub check_if_super_peer-Inside :
    (c : ℕ) (id : List ℕ) (first : Bool) (srv : Server)
    → (user_of c srv.hub).room_id ≡ id
    → Inside id (IsJoining c id first) srv
    → Serves
        (λ t. Inside id (IsArrived c id first) t × (t.hub.sessions ≡ srv.hub.sessions))
        (check_if_super_peer c srv)
unfolding check_if_super_peer manager_set_super_peer_session
check_if_super_peer-Inside c id first srv own h =
    elim (Bool-cases (user_of c srv.hub).super_peer_candidate) [
      | inl fit ↦
          rw (fit, own)
            (with_room-Inside id (IsJoining c id first) (IsArrived c id first)
              (set_super_peer_session c) srv
              (λ r k.
                leaving (Chosen r) (λ r' s. IsArrived c id first r' s × (s ≡ srv.hub.sessions))
                  (set_super_peer_session c r srv.hub)
                  (λ r' s l. (
                    (
                      record {
                        elected = l.0;
                        named = l.3 ∙ k.0.named;
                        housed = rw (l.1, l.2) k.0.housed;
                      },
                      rw (l.1, l.2) k.0.added.member,
                      rw l.2 k.1,
                    ),
                    l.1,
                  ))
                  (set_super_peer_session-IsElected c r srv.hub k.0.added.sound k.0.added.member
                    fit))
              h)
      | inr unfit ↦ rw unfit (record {
        server = srv;
        returns = refl;
        holds = (
          record {
            mapped = h.mapped;
            room = h.room;
            at = h.at;
            here = (
              record {
                elected = added-IsElected c h.room srv.hub.sessions h.here.0.added unfit;
                named = h.here.0.named;
                housed = h.here.0.housed;
              },
              h.here.0.added.member,
              h.here.1,
            );
            others = h.others;
          },
          refl,
        );
      })
    ]
  where
    Chosen : Room → Room → (ℕ → Session) → Type 0
    Chosen r r' s =
        IsElected r' s
        × (s ≡ srv.hub.sessions)
        × (r'.client_map ≡ r.client_map)
        × (r'.room_id ≡ r.room_id)

pub append_members-total :
    (id : List ℕ) (m : Map ℕ) (hub : Hub) (body : List ℕ)
    → IsHoused id m hub.sessions
    → (bs : List ℕ) × (append_members m hub body ≡ ok bs)
unfolding append_members
append_members-total id [] hub body h = (body, refl)
append_members-total id ((i, d) ∷ m) hub body h =
    let (bs, e) = append_members-total id m hub (body ++ member_bytes (user_of d hub)) h.1 in
    (bs, rw (serialize_member_lem (user_of d hub) h.0.1) e)

-- The answer that a session gets as the last that the server does: whether it is alone, the members,
-- and the super peer's id.
pub record IsAnswered (c : ℕ) (id : List ℕ) (first : Bool) (t : Server) : Type 0 where
  pub before : Server
  pub room : Room
  pub at : find id before.rooms ≡ some room
  pub alone : first ≡ (length room.client_map == 1)
  pub list : List ℕ
  pub listed : manager_joiner_info id before ≡ ok list
  pub answer : Protocol
  pub made :
      response_join id first list (id_of (current_super_peer_session id before) before.hub)
      ≡ ok (some answer)
  pub sent : t ≡ record before { hub = write_to c answer before.hub }
