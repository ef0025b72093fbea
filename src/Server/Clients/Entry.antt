-- ===== src/Server/Clients/Entry.antt =====
-- SharedPaintManager.cpp: joinRoom of a session that is in no room, and whose id is free in the room
-- that it names.
use shared_painter.Common.{
  ℕ, ◌≡◌, refl, sym, ap, subst, ◌∙◌, Bool, true, false, List, length, Option, none, some, same_text,
  same_text_self, find, place, assign, find-place, find-assigned, All, All-map, All-place, All-both,
  All-assign, All-place-others, All-find, IsMap-place, IsMap-assign, ◌==◌,
}
use shared_painter.Builder.Carries.{IsShort}
use shared_painter.Server.{Member}
use shared_painter.Server.Interop.{IsSent}
use shared_painter.Server.Rooms.{Session, Hub, Room, user_of, new_room, add_joiner}
use shared_painter.Server.Rooms.Arrivals.{
  IsAway, IsAdded, synced, synced_self, add_joiner-IsAdded, new_room-IsElected,
  set_session-Untouched,
}
use shared_painter.Server.Clients.{Server, join_room, add_at, find_user, user_in}
use shared_painter.Server.Clients.Hosting.{
  IsHosted-at, IsHosted, IsHoused, IsServed, Inside, others_set_session,
}

-- The session is in no room, and no other one has its id in its room.
pub record IsNew (c : ℕ) (srv : Server) : Type 0 where
  pub away : All (λ e. IsAway c e.1.client_map) srv.rooms
  pub free : find_user (user_of c srv.hub).room_id (user_of c srv.hub).user_id srv ≡ none
  pub sent : IsSent (user_of c srv.hub)

-- The room right after the entry.
pub record IsJoined (c : ℕ) (id : List ℕ) (room : Room) (sessions : ℕ → Session) : Type 0 where
  pub added : IsAdded c room sessions
  pub named : room.room_id ≡ id
  pub housed : IsHoused id room.client_map sessions

pub record Enters (c : ℕ) (srv : Server) : Type 0 where
  pub first : Bool
  pub server : Server
  pub returns : join_room c srv ≡ (first, server)
  pub inside : Inside (user_of c srv.hub).room_id (IsJoined c (user_of c srv.hub).room_id) server
  pub counted : first ≡ (length inside.room.client_map == 1)
  pub synced : server.hub ≡ synced c srv.hub

IsSent-synced : (m : Member) → IsSent m → IsSent (record m { sync_complete = true })
IsSent-synced m h = record {
  room_id_short = h.room_id_short;
  user_id_short = h.user_id_short;
  nick_name_short = h.nick_name_short;
  view_ip_short = h.view_ip_short;
  local_ip_short = h.local_ip_short;
  port_fits = h.port_fits;
}

-- What `addJoiner` makes of a room that satisfies the invariant, or of a new one.
record Takes (c : ℕ) (room : Room) (hub : Hub) : Type 0 where
  room' : Room
  returns : add_joiner c room hub ≡ (length room'.client_map == 1, room', synced c hub)
  joined : IsJoined c (user_of c hub).room_id room' (synced c hub).sessions

take_in :
    (c : ℕ) (room : Room) (hub : Hub)
    → IsHosted (user_of c hub).room_id room hub.sessions
    → IsAway c room.client_map
    → find (user_of c hub).user_id room.client_map ≡ none
    → IsSent (user_of c hub)
    → Takes c room hub
take_in c room hub h away free sent =
    let (room', returns, placed, added) =
      add_joiner-IsAdded c room hub h.elected free sent.user_id_short in
    record {
      room' = room';
      returns = returns;
      joined = record {
        added = added;
        named = ap (λ r. r.room_id) placed ∙ h.named;
        housed =
            subst (λ r. IsHoused id r.client_map after) (sym placed)
              (All-place (λ e. ((after e.1).user.room_id ≡ id) × IsSent (after e.1).user)
                (user_of c hub).user_id c room.client_map
                (
                  ap (λ m. m.room_id) (synced_self c hub),
                  subst IsSent (sym (synced_self c hub)) (IsSent-synced (user_of c hub) sent),
                )
                (All-map
                  (λ e.
                    (after e.1 ≡ hub.sessions e.1)
                    × (((hub.sessions e.1).user.room_id ≡ id) × IsSent (hub.sessions e.1).user))
                  (λ e. ((after e.1).user.room_id ≡ id) × IsSent (after e.1).user) room.client_map
                  (λ e p. subst (λ x. (x.user.room_id ≡ id) × IsSent x.user) (sym p.0) p.1)
                  (All-both (λ e. after e.1 ≡ hub.sessions e.1)
                    (λ e. ((hub.sessions e.1).user.room_id ≡ id) × IsSent (hub.sessions e.1).user)
                    room.client_map
                    (set_session-Untouched c
                      (record (hub.sessions c) {
                        user = record (user_of c hub) { sync_complete = true };
                      })
                      hub room.client_map away)
                    h.housed)));
      };
    }
  where
    id : List ℕ
    id = (user_of c hub).room_id

    after : ℕ → Session
    after = (synced c hub).sessions

new_room-IsHosted : (id : List ℕ) (s : ℕ → Session) → IsShort id → IsHosted id (new_room id) s
unfolding new_room
new_room-IsHosted id s short = record {
  elected = new_room-IsElected id s short;
  named = refl;
  housed = tt;
}

no_members : (id : List ℕ) (c : ℕ) → IsAway c (new_room id).client_map
unfolding new_room
no_members id c = tt

no_member : (id own : List ℕ) → find own (new_room id).client_map ≡ none
unfolding new_room find
no_member id own = refl

-- A session that is in no room comes into the room that it names, which is made where there is none.
pub join_room-Enters : (c : ℕ) (srv : Server) → IsServed srv → IsNew c srv → Enters c srv
unfolding join_room find_user
join_room-Enters c srv h new = go (find id srv.rooms) refl
  where
    id : List ℕ
    id = (user_of c srv.hub).room_id

    renewed : Session
    renewed = record (srv.hub.sessions c) {
      user = record (user_of c srv.hub) { sync_complete = true };
    }

    others :
        All (λ e. same_text id e.0 ≡ false → IsHosted e.0 e.1 (synced c srv.hub).sessions) srv.rooms
    others =
        others_set_session id c renewed srv.hub srv.rooms
          (All-map (λ e. IsAway c e.1.client_map)
            (λ e. same_text id e.0 ≡ false → IsAway c e.1.client_map) srv.rooms (λ e p n. p)
            new.away)
          (All-map (λ e. IsHosted e.0 e.1 srv.hub.sessions)
            (λ e. same_text id e.0 ≡ false → IsHosted e.0 e.1 srv.hub.sessions) srv.rooms
            (λ e p n. p) h.hosted)

    go : (o : Option Room) → find id srv.rooms ≡ o → Enters c srv
    go none absent =
        let taken =
          take_in c (new_room id) srv.hub
            (new_room-IsHosted id srv.hub.sessions new.sent.room_id_short) (no_members id c)
            (no_member id (user_of c srv.hub).user_id) new.sent in
        record {
          first = length taken.room'.client_map == 1;
          server = record { rooms = place id taken.room' srv.rooms; hub = synced c srv.hub };
          returns =
              ap (λ o. add_at o c srv) absent
              ∙ ap (λ p. (p.0, record { rooms = place id p.1 srv.rooms; hub = p.2 })) taken.returns;
          inside = record {
            mapped = IsMap-place id taken.room' srv.rooms absent h.mapped;
            room = taken.room';
            at = find-place id id taken.room' srv.rooms absent ∙ rw (same_text_self id) refl;
            here = taken.joined;
            others =
                All-place-others (λ e. IsHosted e.0 e.1 (synced c srv.hub).sessions) id taken.room'
                  srv.rooms others;
          };
          counted = refl;
          synced = refl;
        }
    go (some room) at =
        let taken =
          take_in c room srv.hub (IsHosted-at id room srv h at)
            (All-find (λ e. IsAway c e.1.client_map) id srv.rooms room new.away at)
            (subst (λ o. user_in o (user_of c srv.hub).user_id ≡ none) at new.free) new.sent in
        record {
          first = length taken.room'.client_map == 1;
          server = record { rooms = assign id taken.room' srv.rooms; hub = synced c srv.hub };
          returns =
              ap (λ o. add_at o c srv) at
              ∙ ap (λ p. (p.0, record { rooms = assign id p.1 srv.rooms; hub = p.2 }))
                  taken.returns;
          inside = record {
            mapped = IsMap-assign id taken.room' room srv.rooms at h.mapped;
            room = taken.room';
            at = find-assigned id taken.room' room srv.rooms at;
            here = taken.joined;
            others =
                All-assign (λ e. IsHosted e.0 e.1 (synced c srv.hub).sessions) id taken.room'
                  srv.rooms others;
          };
          counted = refl;
          synced = refl;
        }
