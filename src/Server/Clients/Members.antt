-- ===== src/Server/Clients/Members.antt =====
-- SharedPaintManager.cpp and SharedPaintClient.cpp: a member of a room leaves it, or turns out to be
-- reachable.
use shared_painter.Common.{
  ℕ, ◌≡◌, refl, sym, ap, ◌∙◌, false, List, Option, none, some, same_text_self, find, find-erase,
  All-erase,
}
use shared_painter.Server.Interop.{IsSent}
use shared_painter.Server.Rooms.{Session, Room, user_of, remove_joiner}
use shared_painter.Server.Rooms.Elections.{Leaves, some_not_none}
use shared_painter.Server.Rooms.Joining.{LeftBehind, remove_joiner-IsElected}
use shared_painter.Server.Clients.{Server, find_user, user_in, leave_room, on_closed}
use shared_painter.Server.Clients.Hosting.{
  IsHosted-at, IsHosted, IsServed, Serves, open_room, close_room, enter, leaving, with_room-Inside,
}

-- The session stands in the room that it names, under its id.
abbrev pub IsMember : ℕ → Server → Type 0
IsMember c srv = find_user (user_of c srv.hub).room_id (user_of c srv.hub).user_id srv ≡ some c

pub member_room :
    (id user_id : List ℕ) (c : ℕ) (srv : Server)
    → find_user id user_id srv ≡ some c
    → (room : Room) × (find id srv.rooms ≡ some room) × (find user_id room.client_map ≡ some c)
unfolding find_user
member_room id user_id c srv h = go (find id srv.rooms) h
  where
    go :
        (o : Option Room)
        → user_in o user_id ≡ some c
        → (room : Room) × (o ≡ some room) × (find user_id room.client_map ≡ some c)
    go none e = some_not_none (sym e)
    go (some room) e = (room, refl, e)

pub IsMember-at :
    (c : ℕ) (t : Server) (id own : List ℕ) (room : Room)
    → (user_of c t.hub).room_id ≡ id
    → (user_of c t.hub).user_id ≡ own
    → find id t.rooms ≡ some room
    → find own room.client_map ≡ some c
    → IsMember c t
unfolding find_user
IsMember-at c t id own room hid hown at inside = rw (hid, hown, at) inside

-- A member that leaves is gone, its room and the others keep what holds of them, and no session is
-- changed.
pub leave_room-IsServed :
    (c : ℕ) (srv : Server)
    → IsServed srv
    → IsMember c srv
    → Serves
        (λ t.
          IsServed t
          × (t.hub.sessions ≡ srv.hub.sessions)
          × (find_user (user_of c srv.hub).room_id (user_of c srv.hub).user_id t ≡ none))
        (leave_room c srv)
unfolding leave_room find_user
leave_room-IsServed c srv h member =
    let (room, at, inside) = member_room id own c srv member in
    let left =
      with_room-Inside id Stays Gone (remove_joiner c) srv step
        (open_room id Stays room srv h at (IsHosted-at id room srv h at, inside)) in
    let inner = left.holds.0 in
    record {
      server = left.server;
      returns = left.returns;
      holds = (
        close_room id left.server (enter id Gone (IsHosted id) left.server inner inner.here.0),
        left.holds.1,
        rw inner.at inner.here.1,
      );
    }
  where
    id : List ℕ
    id = (user_of c srv.hub).room_id

    own : List ℕ
    own = (user_of c srv.hub).user_id

    Stays : Room → (ℕ → Session) → Type 0
    Stays r s = IsHosted id r s × (find own r.client_map ≡ some c)

    Gone : Room → (ℕ → Session) → Type 0
    Gone r s = IsHosted id r s × (find own r.client_map ≡ none)

    step :
        (r : Room)
        → Stays r srv.hub.sessions
        → Leaves (λ r' s. Gone r' s × (s ≡ srv.hub.sessions)) (remove_joiner c r srv.hub)
    step r k =
        leaving (LeftBehind c r srv.hub) (λ r' s. Gone r' s × (s ≡ srv.hub.sessions))
          (remove_joiner c r srv.hub)
          (λ r' s l. (
            (
              record {
                elected = l.0;
                named = l.3 ∙ k.0.named;
                housed =
                    rw (l.1, l.2)
                      (All-erase
                        (λ e.
                          ((srv.hub.sessions e.1).user.room_id ≡ id)
                          × IsSent (srv.hub.sessions e.1).user)
                        own r.client_map k.0.housed);
              },
              ap (find own) l.2 ∙ find-erase own own r.client_map ∙ rw (same_text_self own) refl,
            ),
            l.1,
          ))
          (remove_joiner-IsElected c r srv.hub k.0.elected k.1)

-- A session whose socket closes leaves, unless another one has taken its place.
pub on_closed-IsServed :
    (c : ℕ) (srv : Server)
    → IsServed srv
    → IsMember c srv
    → (srv.hub.sessions c).invalid_session_flag ≡ false
    → Serves
        (λ t.
          IsServed t
          × (t.hub.sessions ≡ srv.hub.sessions)
          × (find_user (user_of c srv.hub).room_id (user_of c srv.hub).user_id t ≡ none))
        (on_closed c srv)
unfolding on_closed
on_closed-IsServed c srv h member valid = rw valid (leave_room-IsServed c srv h member)
