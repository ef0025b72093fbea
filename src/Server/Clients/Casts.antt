-- ===== src/Server/Clients/Casts.antt =====
-- SharedPaintClient.cpp: the packets that are relayed, a new nick name, and the request for a sync.
use shared_painter.Common.{
  ℕ, ◌≡◌, refl, sym, subst, false, Bool-cases, inl, inr, List, [], ◌∷◌, ◌++◌, length, Option, none,
  some, Outcome, ok, find, ◌==◌, ◌+◌, ◌%◌,
}
use shared_painter.Builder.Carries.{IsShort}
use shared_painter.Wire.Write.{str8}
use shared_painter.Server.Messages.{Protocol}
use shared_painter.Server.Rooms.{
  Session, Hub, Room, user_of, to_session, room_cast, uni_cast, ask_runner, first_try, second_try,
  tried, sync_start, write_to,
}
use shared_painter.Server.Rooms.Members.{room_cast_lem, request_sync_lem}
use shared_painter.Server.Rooms.Elections.{Leaves}
use shared_painter.Server.Clients.{
  Server, with_room, only_hub, manager_room_cast, manager_uni_cast, manager_sync_start, relay,
}
use shared_painter.Server.Clients.Hosting.{
  IsHosted, IsServed, Serves, IsHosted-at, open_room, close_room, with_room-Inside,
}

-- What a call that changes no session leaves.
abbrev pub Serving : Server → Server → Type 0
Serving srv t = IsServed t × (t.hub.sessions ≡ srv.hub.sessions)

pub no_room :
    (id : List ℕ) (op : Room → Hub → Outcome (Room × Hub)) (srv : Server)
    → find id srv.rooms ≡ none
    → with_room id op srv ≡ ok srv
unfolding with_room
no_room id op srv e = rw e refl

-- An operation at a room, where there may be none.
pub with_room-IsServed :
    (id : List ℕ) (op : Room → Hub → Outcome (Room × Hub)) (srv : Server)
    → IsServed srv
    → ((room : Room)
        → IsHosted id room srv.hub.sessions
        → Leaves (λ r s. IsHosted id r s × (s ≡ srv.hub.sessions)) (op room srv.hub))
    → Serves (Serving srv) (with_room id op srv)
with_room-IsServed id op srv h step = go (find id srv.rooms) refl
  where
    go : (o : Option Room) → find id srv.rooms ≡ o → Serves (Serving srv) (with_room id op srv)
    go none e = record { server = srv; returns = no_room id op srv e; holds = (h, refl) }
    go (some room) e =
        let left =
          with_room-Inside id (IsHosted id) (IsHosted id) op srv step
            (open_room id (IsHosted id) room srv h e (IsHosted-at id room srv h e)) in
        record {
          server = left.server;
          returns = left.returns;
          holds = (close_room id left.server left.holds.0, left.holds.1);
        }

IsHosted-again :
    (id : List ℕ) (r : Room) (s t : ℕ → Session)
    → t ≡ s
    → IsHosted id r s
    → IsHosted id r t × (t ≡ s)
IsHosted-again id r s t e h = (subst (IsHosted id r) (sym e) h, e)

pub room_cast-IsServed :
    (id from_id : List ℕ) (prot : Protocol) (srv : Server)
    → IsServed srv
    → Serves (Serving srv) (manager_room_cast id from_id (some prot) false srv)
unfolding manager_room_cast
room_cast-IsServed id from_id prot srv h =
    with_room-IsServed id (only_hub (room_cast from_id (some prot) false)) srv h λ r k.
      let (hub', cast, kept) = room_cast_lem from_id prot false r srv.hub in
      record {
        room = r;
        hub = hub';
        returns = rw cast refl;
        holds = IsHosted-again id r srv.hub.sessions hub'.sessions kept k;
      }

to_session-sessions :
    (o : Option ℕ) (prot : Protocol) (hub : Hub) → (to_session o prot hub).sessions ≡ hub.sessions
unfolding write_to
to_session-sessions none prot hub = refl
to_session-sessions (some c) prot hub = refl

pub uni_cast-IsServed :
    (id : List ℕ) (prot : Protocol) (srv : Server)
    → IsServed srv
    → Serves (Serving srv) (manager_uni_cast id (some prot) srv)
unfolding manager_uni_cast uni_cast
uni_cast-IsServed id prot srv h =
    with_room-IsServed id (only_hub (uni_cast (some prot))) srv h λ r k. record {
      room = r;
      hub = to_session (find prot.to_id r.client_map) prot srv.hub;
      returns = refl;
      holds =
          IsHosted-again id r srv.hub.sessions _
            (to_session-sessions (find prot.to_id r.client_map) prot srv.hub) k;
    }

pub relay-IsServed :
    (c : ℕ) (prot : Protocol) (srv : Server)
    → IsServed srv
    → Serves (Serving srv) (relay c prot srv)
unfolding relay
relay-IsServed c prot srv h = elim (Bool-cases (length prot.to_id == 0)) [
  | inl all ↦
      rw all (room_cast-IsServed (user_of c srv.hub).room_id (user_of c srv.hub).user_id prot srv h)
  | inr one ↦ rw one (uni_cast-IsServed (user_of c srv.hub).room_id prot srv h)
]

-- The runner is asked, whatever it is.
asked :
    (runner target : List ℕ) (room : Room) (hub : Hub)
    → IsShort room.room_id
    → IsShort target
    → (hub' : Hub) × (ask_runner runner target room hub ≡ ok (room, hub'))
      × (hub'.sessions ≡ hub.sessions)
unfolding uni_cast
asked [] target room hub hr ht = (hub, refl, refl)
asked (x ∷ xs) target room hub hr ht =
    let prot : Protocol = record {
      code = 7;
      to_id = x ∷ xs;
      payload = str8 room.room_id ++ str8 target;
    } in
    (
      to_session (find (x ∷ xs) room.client_map) prot hub,
      rw (request_sync_lem room.room_id (x ∷ xs) target hr ht) refl,
      to_session-sessions (find (x ∷ xs) room.client_map) prot hub,
    )

indexed-IsHosted :
    (id : List ℕ) (n : ℕ) (r : Room) (s : ℕ → Session)
    → IsHosted id r s
    → IsHosted id (record r { last_sync_runner_index = n }) s
indexed-IsHosted id n r s h = record {
  elected = record {
    sound = record {
      found = h.elected.sound.found;
      keyed = h.elected.sound.keyed;
      leads = h.elected.sound.leads;
      room_short = h.elected.sound.room_short;
      ids_short = h.elected.sound.ids_short;
    };
    elected = h.elected.elected;
  };
  named = h.named;
  housed = h.housed;
}

pub sync_start-IsServed :
    (id target : List ℕ) (srv : Server)
    → IsServed srv
    → IsShort target
    → Serves (Serving srv) (manager_sync_start id target srv)
unfolding manager_sync_start sync_start
sync_start-IsServed id target srv h short =
    with_room-IsServed id (sync_start target) srv h
      λ r k. go r k (first_try 0 r.last_sync_runner_index target r.client_map [])
  where
    go :
        (r : Room)
        → IsHosted id r srv.hub.sessions
        → (runner : List ℕ)
        → Leaves (λ r' s. IsHosted id r' s × (s ≡ srv.hub.sessions)) (tried runner target r srv.hub)
    go r k [] =
        let (hub', done, kept) =
          asked (second_try target r.client_map []) target r srv.hub k.elected.sound.room_short
            short in
        record {
          room = r;
          hub = hub';
          returns = done;
          holds = IsHosted-again id r srv.hub.sessions hub'.sessions kept k;
        }
    go r k (x ∷ xs) =
        let next : ℕ = (r.last_sync_runner_index + 1) % length r.client_map in
        let r' : Room = record r { last_sync_runner_index = next } in
        let (hub', done, kept) =
          asked (x ∷ xs) target r' srv.hub k.elected.sound.room_short short in
        record {
          room = r';
          hub = hub';
          returns = done;
          holds =
              IsHosted-again id r' srv.hub.sessions hub'.sessions kept
                (indexed-IsHosted id next r srv.hub.sessions k);
        }
