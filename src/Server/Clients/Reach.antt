-- ===== src/Server/Clients/Reach.antt =====
-- SharedPaintClient.cpp: what can happen to a server from its start, with packets that are expected
-- and sockets that close.
use shared_painter.Common.{
  ℕ, ◌≡◌, refl, sym, subst, ◌∙◌, true, false, List, [], Option, none, some, ok, find,
}
use shared_painter.Server.Messages.{Protocol}
use shared_painter.Server.Rooms.{Session, Hub, Room, user_of, remove_joiner}
use shared_painter.Server.Rooms.Elections.{Leaves, is_candidate, id_in}
use shared_painter.Server.Rooms.Arrivals.{IsElected-super_peer}
use shared_painter.Server.Clients.{
  Server, on_shared_paint_received, on_closed, current_super_peer_session, find_user, user_in,
  leave_room,
}
use shared_painter.Server.Clients.Hosting.{
  IsHosted, IsServed, Serves, IsHosted-at, open_room, enter, close_room, with_room-Inside,
}
use shared_painter.Server.Clients.Members.{IsMember, member_room, on_closed-IsServed}
use shared_painter.Server.Clients.Casts.{no_room}
use shared_painter.Server.Clients.Receipt.{Expected, on_shared_paint_received-IsServed}

nobody :
    (c : ℕ) (room : Room) (hub : Hub)
    → find (id_in hub.sessions c) room.client_map ≡ none
    → remove_joiner c room hub ≡ ok (room, hub)
unfolding remove_joiner
nobody c room hub e = rw e refl

-- A session leaves whose id nobody has in the room that it names.
outside-IsServed :
    (c : ℕ) (srv : Server)
    → IsServed srv
    → find_user (user_of c srv.hub).room_id (user_of c srv.hub).user_id srv ≡ none
    → Serves IsServed (leave_room c srv)
unfolding leave_room find_user
outside-IsServed c srv h absent = go (find id srv.rooms) refl
  where
    id : List ℕ
    id = (user_of c srv.hub).room_id

    own : List ℕ
    own = (user_of c srv.hub).user_id

    Without : Room → (ℕ → Session) → Type 0
    Without r s = IsHosted id r s × (find own r.client_map ≡ none)

    step :
        (r : Room)
        → Without r srv.hub.sessions
        → Leaves (λ r' s. Without r' s × (s ≡ srv.hub.sessions)) (remove_joiner c r srv.hub)
    step r k = record {
      room = r;
      hub = srv.hub;
      returns = nobody c r srv.hub k.1;
      holds = (k, refl);
    }

    go : (o : Option Room) → find id srv.rooms ≡ o → Serves IsServed (leave_room c srv)
    go none e = record { server = srv; returns = no_room id (remove_joiner c) srv e; holds = h }
    go (some room) e =
        let left = with_room-Inside id Without Without (remove_joiner c) srv step (
          open_room id Without room srv h e
            (IsHosted-at id room srv h e, subst (λ o. user_in o own ≡ none) e absent)) in
        let inner = left.holds.0 in
        record {
          server = left.server;
          returns = left.returns;
          holds =
              close_room id left.server
                (enter id Without (IsHosted id) left.server inner inner.here.0);
        }

pub data Step (srv : Server) : Server → Type 0 where
  received :
      (c : ℕ) (prot : Protocol) {t : Server}
      → Expected c prot srv
      → on_shared_paint_received c prot srv ≡ ok t
      → Step srv t
  closed :
      (c : ℕ) {t : Server}
      → IsMember c srv
      → (srv.hub.sessions c).invalid_session_flag ≡ false
      → on_closed c srv ≡ ok t
      → Step srv t
  closed_outside :
      (c : ℕ) {t : Server}
      → find_user (user_of c srv.hub).room_id (user_of c srv.hub).user_id srv ≡ none
      → (srv.hub.sessions c).invalid_session_flag ≡ false
      → on_closed c srv ≡ ok t
      → Step srv t
  closed_invalid :
      (c : ℕ) {t : Server}
      → (srv.hub.sessions c).invalid_session_flag ≡ true
      → on_closed c srv ≡ ok t
      → Step srv t

pub data Reach (srv : Server) : Server → Type 0 where
  here : Reach srv srv
  next : {t u : Server} → Reach srv t → Step t u → Reach srv u

same_server : {a b : Server} → ok a ≡ ok b → a ≡ b
same_server e = cc

Step-IsServed : {srv t : Server} → IsServed srv → Step srv t → IsServed t
unfolding on_closed
Step-IsServed {srv} h (received c prot expected e) =
    let done = on_shared_paint_received-IsServed c prot srv h expected in
    subst IsServed (same_server (sym done.returns ∙ e)) done.holds
Step-IsServed {srv} h (closed c member valid e) =
    let done = on_closed-IsServed c srv h member valid in
    subst IsServed (same_server (sym done.returns ∙ e)) done.holds.0
Step-IsServed {srv} h (closed_outside c absent valid e) =
    let done = outside-IsServed c srv h absent in
    subst IsServed (same_server (sym (rw valid done.returns) ∙ e)) done.holds
Step-IsServed {srv} h (closed_invalid c invalid e) =
    let done : on_closed c srv ≡ ok srv = rw invalid refl in
    subst IsServed (same_server (sym done ∙ e)) h

-- The server before the first join, with any sessions.
abbrev pub started : Hub → Server
started hub = record { rooms = []; hub = hub }

pub Reach-IsServed : (hub : Hub) {t : Server} → Reach (started hub) t → IsServed t
Reach-IsServed hub here = record { mapped = tt; hosted = tt }
Reach-IsServed hub (next r s) = Step-IsServed (Reach-IsServed hub r) s

-- The super peer of a member's room.
pub record IsLed (c : ℕ) (srv : Server) : Type 0 where
  pub leader : ℕ
  pub leads : current_super_peer_session (user_of c srv.hub).room_id srv ≡ some leader
  pub inside :
      find_user (user_of c srv.hub).room_id (user_of leader srv.hub).user_id srv ≡ some leader
  pub candidate : is_candidate srv.hub.sessions leader ≡ true

-- Whatever has happened to a server since its start, with expected packets, and closed sockets of
-- sessions whose id no other session has in their room: a member that can be the super peer has one in
-- its room, and that one is a member of the room that can be the super peer.
pub Reach-IsLed :
    (hub : Hub) (c : ℕ) {t : Server}
    → Reach (started hub) t
    → IsMember c t
    → is_candidate t.hub.sessions c ≡ true
    → IsLed c t
unfolding current_super_peer_session find_user
Reach-IsLed hub c {t} r member fit =
    let (room, at, inside) =
      member_room (user_of c t.hub).room_id (user_of c t.hub).user_id c t member in
    let hosted = IsHosted-at (user_of c t.hub).room_id room t (Reach-IsServed hub r) at in
    let (leader, led) =
      IsElected-super_peer room t.hub.sessions (user_of c t.hub).user_id c hosted.elected inside
        fit in
    let (found, candidate) = hosted.elected.sound.leads leader led in
    record { leader = leader; leads = rw at led; inside = rw at found; candidate = candidate }
