-- ===== src/Server/Clients/Hosting.antt =====
-- SharedPaintManager.cpp: what the server keeps of its rooms, and an operation on one of them, which
-- the manager finds by its id.
use shared_painter.Common.{
  ℕ, ◌≡◌, refl, sym, ap, subst, ◌∙◌, true, false, Bool-cases, inl, inr, List, some, Outcome, ok,
  same_text, same_text_iff, Map, find, find-assigned, All, All-assign, All-find, All-map, All-both,
  IsMap, IsMap-assign, ◌==◌, ==_iff,
}
use shared_painter.Server.Interop.{IsSent}
use shared_painter.Server.Rooms.{Session, Hub, Room, set_session}
use shared_painter.Server.Rooms.Elections.{IsElected, Leaves}
use shared_painter.Server.Rooms.Arrivals.{
  IsAway, Untouched, set_session-Untouched, Untouched-IsElected,
}
use shared_painter.Server.Clients.{Server, with_room, put_back}

-- The members of a room name it as theirs, and can be written.
abbrev pub IsHoused : List ℕ → Map ℕ → (ℕ → Session) → Type 0
IsHoused id m s = All (λ e. ((s e.1).user.room_id ≡ id) × IsSent (s e.1).user) m

-- A room of the server, under its id.
pub record IsHosted (id : List ℕ) (room : Room) (sessions : ℕ → Session) : Type 0 where
  pub elected : IsElected room sessions
  pub named : room.room_id ≡ id
  pub housed : IsHoused id room.client_map sessions

pub record IsServed (srv : Server) : Type 0 where
  pub mapped : IsMap srv.rooms
  pub hosted : All (λ e. IsHosted e.0 e.1 srv.hub.sessions) srv.rooms

-- The same while an operation is at a room, of which `X` holds.
pub record Inside (id : List ℕ) (X : Room → (ℕ → Session) → Type 0) (srv : Server) : Type 0 where
  pub mapped : IsMap srv.rooms
  pub room : Room
  pub at : find id srv.rooms ≡ some room
  pub here : X room srv.hub.sessions
  pub others : All (λ e. same_text id e.0 ≡ false → IsHosted e.0 e.1 srv.hub.sessions) srv.rooms

pub IsHosted-at :
    (id : List ℕ) (room : Room) (srv : Server)
    → IsServed srv
    → find id srv.rooms ≡ some room
    → IsHosted id room srv.hub.sessions
IsHosted-at id room srv h at =
    All-find (λ e. IsHosted e.0 e.1 srv.hub.sessions) id srv.rooms room h.hosted at

pub open_room :
    (id : List ℕ) (X : Room → (ℕ → Session) → Type 0) (room : Room) (srv : Server)
    → IsServed srv
    → find id srv.rooms ≡ some room
    → X room srv.hub.sessions
    → Inside id X srv
open_room id X room srv h at here = record {
  mapped = h.mapped;
  room = room;
  at = at;
  here = here;
  others =
      All-map (λ e. IsHosted e.0 e.1 srv.hub.sessions)
        (λ e. same_text id e.0 ≡ false → IsHosted e.0 e.1 srv.hub.sessions) srv.rooms (λ e p n. p)
        h.hosted;
}

-- What else holds of the room.
pub enter :
    (id : List ℕ) (X Y : Room → (ℕ → Session) → Type 0) (srv : Server) (h : Inside id X srv)
    → Y h.room srv.hub.sessions
    → Inside id Y srv
enter id X Y srv h here = record {
  mapped = h.mapped;
  room = h.room;
  at = h.at;
  here = here;
  others = h.others;
}

pub leaving :
    (P Q : Room → (ℕ → Session) → Type 0) (m : Outcome (Room × Hub))
    → ((r : Room) (s : ℕ → Session) → P r s → Q r s)
    → Leaves P m
    → Leaves Q m
leaving P Q m f l = record {
  room = l.room;
  hub = l.hub;
  returns = l.returns;
  holds = f l.room l.hub.sessions l.holds;
}

same_room : {a b : Room} → some a ≡ some b → a ≡ b
same_room e = cc

pub close_room : (id : List ℕ) (srv : Server) → Inside id (IsHosted id) srv → IsServed srv
close_room id srv h = record {
  mapped = h.mapped;
  hosted =
      All-map
        (λ e.
          (find e.0 srv.rooms ≡ some e.1)
          × (same_text id e.0 ≡ false → IsHosted e.0 e.1 srv.hub.sessions))
        (λ e. IsHosted e.0 e.1 srv.hub.sessions) srv.rooms
        (λ e p. elim (Bool-cases (same_text id e.0)) [
          | inl same ↦
              let key : id ≡ e.0 = (same_text_iff id e.0).0 same in
              let value : h.room ≡ e.1 =
                same_room (sym h.at ∙ ap (λ i. find i srv.rooms) key ∙ p.0) in
              subst (λ i. IsHosted i e.1 srv.hub.sessions) key
                (subst (λ r. IsHosted id r srv.hub.sessions) value h.here)
          | inr other ↦ p.1 other
        ])
        (All-both (λ e. find e.0 srv.rooms ≡ some e.1)
          (λ e. same_text id e.0 ≡ false → IsHosted e.0 e.1 srv.hub.sessions) srv.rooms h.mapped
          h.others);
}

-- What a call of the server leaves: it returns, and the server satisfies `P`.
pub record Serves (P : Server → Type 0) (m : Outcome Server) : Type 0 where
  pub server : Server
  pub returns : m ≡ ok server
  pub holds : P server

-- An operation that leaves the sessions as they are is an operation at the room.
pub with_room-Inside :
    (id : List ℕ) (X Y : Room → (ℕ → Session) → Type 0) (op : Room → Hub → Outcome (Room × Hub))
    (srv : Server)
    → ((room : Room)
        → X room srv.hub.sessions
        → Leaves (λ r s. Y r s × (s ≡ srv.hub.sessions)) (op room srv.hub))
    → Inside id X srv
    → Serves (λ t. Inside id Y t × (t.hub.sessions ≡ srv.hub.sessions)) (with_room id op srv)
unfolding with_room
with_room-Inside id X Y op srv step h =
    let l = step h.room h.here in
    record {
      server = put_back id srv (l.room, l.hub);
      returns = rw (h.at, l.returns) refl;
      holds = (
        record {
          mapped = IsMap-assign id l.room h.room srv.rooms h.at h.mapped;
          room = l.room;
          at = find-assigned id l.room h.room srv.rooms h.at;
          here = l.holds.0;
          others =
              All-assign (λ e. IsHosted e.0 e.1 l.hub.sessions) id l.room srv.rooms
                (subst (λ s. All (λ e. same_text id e.0 ≡ false → IsHosted e.0 e.1 s) srv.rooms)
                  (sym l.holds.1) h.others);
        },
        l.holds.1,
      );
    }

pub Untouched-IsHosted :
    (s t : ℕ → Session) (i : List ℕ) (room : Room)
    → Untouched s t room.client_map
    → IsHosted i room s
    → IsHosted i room t
Untouched-IsHosted s t i room u k = record {
  elected = Untouched-IsElected room s t k.elected u;
  named = k.named;
  housed =
      All-map (λ e. (t e.1 ≡ s e.1) × (((s e.1).user.room_id ≡ i) × IsSent (s e.1).user))
        (λ e. ((t e.1).user.room_id ≡ i) × IsSent (t e.1).user) room.client_map
        (λ e p. subst (λ x. (x.user.room_id ≡ i) × IsSent x.user) (sym p.0) p.1)
        (All-both (λ e. t e.1 ≡ s e.1) (λ e. ((s e.1).user.room_id ≡ i) × IsSent (s e.1).user)
          room.client_map u k.housed);
}

-- A session changes that is at no other room.
pub others-Untouched :
    (id : List ℕ) (s t : ℕ → Session) (m : Map Room)
    → All (λ e. same_text id e.0 ≡ false → Untouched s t e.1.client_map) m
    → All (λ e. same_text id e.0 ≡ false → IsHosted e.0 e.1 s) m
    → All (λ e. same_text id e.0 ≡ false → IsHosted e.0 e.1 t) m
others-Untouched id s t m same h =
    All-map
      (λ e.
        (same_text id e.0 ≡ false → Untouched s t e.1.client_map)
        × (same_text id e.0 ≡ false → IsHosted e.0 e.1 s))
      (λ e. same_text id e.0 ≡ false → IsHosted e.0 e.1 t) m
      (λ e p n. Untouched-IsHosted s t e.0 e.1 (p.0 n) (p.1 n))
      (All-both (λ e. same_text id e.0 ≡ false → Untouched s t e.1.client_map)
        (λ e. same_text id e.0 ≡ false → IsHosted e.0 e.1 s) m same h)

-- The members of the other rooms are not the session whose room this is.
pub others-IsAway :
    (id : List ℕ) (c : ℕ) (s : ℕ → Session) (m : Map Room)
    → (s c).user.room_id ≡ id
    → All (λ e. same_text id e.0 ≡ false → IsHosted e.0 e.1 s) m
    → All (λ e. same_text id e.0 ≡ false → IsAway c e.1.client_map) m
others-IsAway id c s m own h =
    All-map (λ e. same_text id e.0 ≡ false → IsHosted e.0 e.1 s)
      (λ e. same_text id e.0 ≡ false → IsAway c e.1.client_map) m
      (λ e p n.
        All-map (λ x. ((s x.1).user.room_id ≡ e.0) × IsSent (s x.1).user) (λ x. (x.1 == c) ≡ false)
          e.1.client_map
          (λ x q. elim (Bool-cases (x.1 == c)) [
            | inl same ↦
                let key : id ≡ e.0 =
                  sym own ∙ ap (λ d. (s d).user.room_id) (sym ((==_iff x.1 c).0 same)) ∙ q.0 in
                let e' : same_text id e.0 ≡ true = (same_text_iff id e.0).1 key in cc
            | inr other ↦ other
          ])
          (p n).housed)
      h

pub others_set_session :
    (id : List ℕ) (c : ℕ) (x : Session) (hub : Hub) (m : Map Room)
    → All (λ e. same_text id e.0 ≡ false → IsAway c e.1.client_map) m
    → All (λ e. same_text id e.0 ≡ false → IsHosted e.0 e.1 hub.sessions) m
    → All (λ e. same_text id e.0 ≡ false → IsHosted e.0 e.1 (set_session c x hub).sessions) m
others_set_session id c x hub m away h =
    others-Untouched id hub.sessions (set_session c x hub).sessions m
      (All-map (λ e. same_text id e.0 ≡ false → IsAway c e.1.client_map)
        (λ e.
          same_text id e.0 ≡ false
          → Untouched hub.sessions (set_session c x hub).sessions e.1.client_map)
        m (λ e p n. set_session-Untouched c x hub e.1.client_map (p n)) away)
      h
