-- ===== src/Server/Rooms/Arrivals.antt =====
-- SharedPaintRoom.cpp: addJoiner of a session whose id is free, and setSuperPeerSession after it, as
-- _handle_CODE_SYSTEM_JOIN_TO_SERVER and checkIfSuperPeer of SharedPaintClient.cpp call them.
use shared_painter.Common.{
  ℕ, ◌≡◌, refl, sym, ap, ◌∙◌, Bool, true, false, Bool-cases, inl, inr, List, [], ◌∷◌, length,
  Option, none, some, same_text, same_text_iff, same_text_self, Map, find, place, find-place, All,
  All-place, All-find, All-map, All-both, IsMap-place, ◌==◌, ==_iff, ==_self, if◌then◌else◌,
}
use shared_painter.Builder.Carries.{IsShort}
use shared_painter.Server.Rooms.{
  Session, Hub, Room, user_of, set_session, set_user, add_joiner, new_room,
}
use shared_painter.Server.Rooms.Elections.{IsKeyed, IsElected, id_in, is_candidate, some_not_none}

-- The sessions of the map are not `c`.
abbrev pub IsAway : ℕ → Map ℕ → Type 0
IsAway c m = All (λ e. (e.1 == c) ≡ false) m

-- What a session is to a room does not change, but that it may become a candidate.
abbrev pub SameFace : (ℕ → Session) → (ℕ → Session) → ℕ → Type 0
SameFace s t d = (id_in t d ≡ id_in s d) × (is_candidate s d ≡ true → is_candidate t d ≡ true)

pub faces-IsKeyed :
    (room : Room) (s t : ℕ → Session)
    → IsKeyed room s
    → All (λ e. SameFace s t e.1) room.client_map
    → IsKeyed room t
faces-IsKeyed room s t k same = record {
  found = k.found;
  keyed =
      All-map (λ e. (id_in s e.1 ≡ e.0) × SameFace s t e.1) (λ e. id_in t e.1 ≡ e.0) room.client_map
        (λ e p. p.1.0 ∙ p.0)
        (All-both (λ e. id_in s e.1 ≡ e.0) (λ e. SameFace s t e.1) room.client_map k.keyed same);
  leads = λ c e.
      let l = k.leads c e in
      let face = All-find (λ e. SameFace s t e.1) (id_in s c) room.client_map c same l.0 in
      (ap (λ i. find i room.client_map) face.0 ∙ l.0, face.1 l.1);
  room_short = k.room_short;
  ids_short = k.ids_short;
}

-- The sessions of the map are as before.
abbrev pub Untouched : (ℕ → Session) → (ℕ → Session) → Map ℕ → Type 0
Untouched s t m = All (λ e. t e.1 ≡ s e.1) m

pub Untouched-IsElected :
    (room : Room) (s t : ℕ → Session)
    → IsElected room s
    → Untouched s t room.client_map
    → IsElected room t
Untouched-IsElected room s t h same = record {
  sound = faces-IsKeyed room s t h.sound (
      All-map (λ e. t e.1 ≡ s e.1) (λ e. SameFace s t e.1) room.client_map
        (λ e p. (ap (λ x. x.user.user_id) p, λ y. ap (λ x. x.user.super_peer_candidate) p ∙ y))
        same);
  elected = λ n.
      All-map (λ e. (is_candidate s e.1 ≡ false) × (t e.1 ≡ s e.1))
        (λ e. is_candidate t e.1 ≡ false) room.client_map
        (λ e p. ap (λ x. x.user.super_peer_candidate) p.1 ∙ p.0)
        (All-both (λ e. is_candidate s e.1 ≡ false) (λ e. t e.1 ≡ s e.1) room.client_map
          (h.elected n) same);
}

pub set_session-Untouched :
    (c : ℕ) (x : Session) (hub : Hub) (m : Map ℕ)
    → IsAway c m
    → Untouched hub.sessions (set_session c x hub).sessions m
unfolding set_session
set_session-Untouched c x hub m away =
    All-map (λ e. (e.1 == c) ≡ false) (λ e. (set_session c x hub).sessions e.1 ≡ hub.sessions e.1) m
      (λ e p. rw p refl) away

-- After the session has been added only it can be a candidate where there is no super peer.
pub record IsAdded (c : ℕ) (room : Room) (sessions : ℕ → Session) : Type 0 where
  pub sound : IsKeyed room sessions
  pub member : find (id_in sessions c) room.client_map ≡ some c
  pub others :
      room.super_peer_session ≡ none
      → All (λ e. (e.1 == c) ≡ false → is_candidate sessions e.1 ≡ false) room.client_map

abbrev pub synced : ℕ → Hub → Hub
synced c hub = set_user c (record (user_of c hub) { sync_complete = true }) hub

placed-IsKeyed :
    (c : ℕ) (room : Room) (s : ℕ → Session)
    → IsKeyed room s
    → find (id_in s c) room.client_map ≡ none
    → IsShort (id_in s c)
    → IsKeyed (record room { client_map = place (id_in s c) c room.client_map }) s
placed-IsKeyed c room s k free short = record {
  found = IsMap-place (id_in s c) c room.client_map free k.found;
  keyed = All-place (λ e. id_in s e.1 ≡ e.0) (id_in s c) c room.client_map refl k.keyed;
  leads = λ d e. (
    find-place (id_in s c) (id_in s d) c room.client_map free ∙ rw (apart d e) (k.leads d e).0,
    (k.leads d e).1,
  );
  room_short = k.room_short;
  ids_short = All-place (λ e. IsShort e.0) (id_in s c) c room.client_map short k.ids_short;
}
  where
    apart : (d : ℕ) → room.super_peer_session ≡ some d → same_text (id_in s c) (id_in s d) ≡ false
    apart d e = elim (Bool-cases (same_text (id_in s c) (id_in s d))) [
      | inl same ↦ some_not_none (
          sym (k.leads d e).0
          ∙ ap (λ t. find t room.client_map) (sym ((same_text_iff (id_in s c) (id_in s d)).0 same))
          ∙ free)
      | inr other ↦ other
    ]

pub set_session_self : (c : ℕ) (x : Session) (hub : Hub) → (set_session c x hub).sessions c ≡ x
unfolding set_session
set_session_self c x hub = rw (==_self c) refl

pub synced_self :
    (c : ℕ) (hub : Hub) → user_of c (synced c hub) ≡ record (user_of c hub) { sync_complete = true }
synced_self c hub =
    ap (λ s. s.user)
      (set_session_self c
        (record (hub.sessions c) { user = record (user_of c hub) { sync_complete = true } }) hub)

synced_face :
    (c d : ℕ) (hub : Hub)
    → (id_in (synced c hub).sessions d ≡ id_in hub.sessions d)
      × (is_candidate (synced c hub).sessions d ≡ is_candidate hub.sessions d)
unfolding set_session
synced_face c d hub = go (d == c) refl
  where
    renewed : Session
    renewed = record (hub.sessions c) { user = record (user_of c hub) { sync_complete = true } }

    go :
        (b : Bool)
        → (d == c) ≡ b
        → ((if b then renewed else hub.sessions d).user.user_id ≡ id_in hub.sessions d)
          × ((if b then renewed else hub.sessions d).user.super_peer_candidate
              ≡ is_candidate hub.sessions d)
    go true e = rw ((==_iff d c).0 e) (refl, refl)
    go false e = (refl, refl)

same_faces :
    (c : ℕ) (hub : Hub) (m : Map ℕ) → All (λ e. SameFace hub.sessions (synced c hub).sessions e.1) m
same_faces c hub [] = tt
same_faces c hub ((i, d) ∷ m) =
    let face = synced_face c d hub in ((face.0, λ e. face.1 ∙ e), same_faces c hub m)

-- A session with a free id is added to the room.
pub add_joiner-IsAdded :
    (c : ℕ) (room : Room) (hub : Hub)
    → IsElected room hub.sessions
    → find (id_in hub.sessions c) room.client_map ≡ none
    → IsShort (id_in hub.sessions c)
    → (room' : Room) × (add_joiner c room hub ≡ (length room'.client_map == 1, room', synced c hub))
      × (room' ≡ record room { client_map = place (id_in hub.sessions c) c room.client_map })
      × IsAdded c room' (synced c hub).sessions
unfolding add_joiner set_session
add_joiner-IsAdded c room hub h free short = (
  record room { client_map = place (id_in hub.sessions c) c room.client_map },
  rw free refl,
  refl,
  record {
    sound =
        faces-IsKeyed (record room { client_map = place (id_in hub.sessions c) c room.client_map })
          hub.sessions (synced c hub).sessions
          (placed-IsKeyed c room hub.sessions h.sound free short)
          (same_faces c hub (place (id_in hub.sessions c) c room.client_map));
    member =
        let own : id_in (synced c hub).sessions c ≡ id_in hub.sessions c =
          (synced_face c c hub).0 in
        ap (λ i. find i (place (id_in hub.sessions c) c room.client_map)) own
        ∙ find-place (id_in hub.sessions c) (id_in hub.sessions c) c room.client_map free
        ∙ rw (same_text_self (id_in hub.sessions c)) refl;
    others = λ n.
        All-place (λ e. (e.1 == c) ≡ false → is_candidate (synced c hub).sessions e.1 ≡ false)
          (id_in hub.sessions c) c room.client_map (λ e. let e' : (c == c) ≡ true = ==_self c in cc)
          (All-map (λ e. is_candidate hub.sessions e.1 ≡ false)
            (λ e. (e.1 == c) ≡ false → is_candidate (synced c hub).sessions e.1 ≡ false)
            room.client_map (λ e p n'. (synced_face c e.1 hub).1 ∙ p) (h.elected n));
  },
)

-- Where the added session cannot be the super peer, the room needs no more.
pub added-IsElected :
    (c : ℕ) (room : Room) (s : ℕ → Session)
    → IsAdded c room s
    → is_candidate s c ≡ false
    → IsElected room s
added-IsElected c room s h unfit = record {
  sound = h.sound;
  elected = λ n.
      All-map (λ e. (e.1 == c) ≡ false → is_candidate s e.1 ≡ false)
        (λ e. is_candidate s e.1 ≡ false) room.client_map
        (λ e p. elim (Bool-cases (e.1 == c)) [
          | inl same ↦ ap (is_candidate s) ((==_iff e.1 c).0 same) ∙ unfit
          | inr other ↦ p other
        ])
        (h.others n);
}

pub new_room-IsElected : (id : List ℕ) (s : ℕ → Session) → IsShort id → IsElected (new_room id) s
unfolding new_room
new_room-IsElected id s short = record {
  sound = record {
    found = tt;
    keyed = tt;
    leads = λ c e. some_not_none (sym e);
    room_short = short;
    ids_short = tt;
  };
  elected = λ n. tt;
}

-- The super peer that a room with a candidate has.
pub IsElected-super_peer :
    (room : Room) (s : ℕ → Session) (id : List ℕ) (c : ℕ)
    → IsElected room s
    → find id room.client_map ≡ some c
    → is_candidate s c ≡ true
    → (d : ℕ) × (room.super_peer_session ≡ some d)
IsElected-super_peer room s id c h member fit = go room.super_peer_session refl
  where
    go : (o : Option ℕ) → room.super_peer_session ≡ o → (d : ℕ) × (o ≡ some d)
    go none e =
        let e' : is_candidate s c ≡ false =
          All-find (λ e. is_candidate s e.1 ≡ false) id room.client_map c (h.elected e) member in
        let e'' : true ≡ false = sym fit ∙ e' in cc
    go (some d) e = (d, refl)
