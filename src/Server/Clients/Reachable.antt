-- ===== src/Server/Clients/Reachable.antt =====
-- SharedPaintClient.cpp: _handle_CODE_SYSTEM_TCPACK of a member, which has shown that it can be
-- reached.
use shared_painter.Common.{
  ℕ, ◌≡◌, refl, sym, ap, subst, ◌∙◌, Bool, true, false, List, [], ◌∷◌, some, Map, find, All,
  All-map, ◌==◌, ==_iff, ==_self, if◌then◌else◌,
}
use shared_painter.Server.{Member}
use shared_painter.Server.Interop.{IsSent}
use shared_painter.Server.Rooms.{Session, Room, user_of, set_super_peer_session, set_session}
use shared_painter.Server.Rooms.Elections.{
  IsKeyed, IsElected, Leaves, is_candidate, set_super_peer_session-IsElected,
}
use shared_painter.Server.Rooms.Arrivals.{SameFace, faces-IsKeyed, IsElected-super_peer}
use shared_painter.Server.Clients.{
  Server, with_room, find_user, current_super_peer_session, handle_tcp_ack,
  manager_set_super_peer_session, with_user,
}
use shared_painter.Server.Clients.Hosting.{
  IsHosted-at, IsHosted, IsHoused, IsServed, Serves, open_room, close_room, enter, leaving,
  with_room-Inside, others-IsAway, others_set_session,
}
use shared_painter.Server.Clients.Members.{IsMember, member_room, IsMember-at}

-- The user of a session that can be reached.
abbrev pub promoted : Member → Member
promoted m = record m { super_peer_candidate = true }

abbrev pub reached : ℕ → Server → Server
reached c srv = with_user c promoted srv

reached_fields :
    (c d : ℕ) (srv : Server)
    → (((user_of d (reached c srv).hub).room_id ≡ (user_of d srv.hub).room_id)
        × ((user_of d (reached c srv).hub).user_id ≡ (user_of d srv.hub).user_id)
        × (is_candidate srv.hub.sessions d ≡ true
            → is_candidate (reached c srv).hub.sessions d ≡ true)
        × (IsSent (user_of d srv.hub) → IsSent (user_of d (reached c srv).hub))
        × ((d == c) ≡ true → is_candidate (reached c srv).hub.sessions d ≡ true))
unfolding set_session
reached_fields c d srv = go (d == c) refl
  where
    renewed : Session
    renewed = record (srv.hub.sessions c) { user = promoted (user_of c srv.hub) }

    go :
        (b : Bool)
        → (d == c) ≡ b
        → (((if b then renewed else srv.hub.sessions d).user.room_id ≡ (user_of d srv.hub).room_id)
            × ((if b then renewed else srv.hub.sessions d).user.user_id
                ≡ (user_of d srv.hub).user_id)
            × (is_candidate srv.hub.sessions d ≡ true
                → (if b then renewed else srv.hub.sessions d).user.super_peer_candidate ≡ true)
            × (IsSent (user_of d srv.hub) → IsSent (if b then renewed else srv.hub.sessions d).user)
            × (b ≡ true
                → (if b then renewed else srv.hub.sessions d).user.super_peer_candidate ≡ true))
    go true e = rw ((==_iff d c).0 e) (
      refl,
      refl,
      λ h. refl,
      λ h. record {
        room_id_short = h.room_id_short;
        user_id_short = h.user_id_short;
        nick_name_short = h.nick_name_short;
        view_ip_short = h.view_ip_short;
        local_ip_short = h.local_ip_short;
        port_fits = h.port_fits;
      },
      λ h. refl,
    )
    go false e = (refl, refl, λ h. h, λ h. h, λ h. cc)

-- Where a member of a room acknowledges that it can be reached, the call returns, the rooms keep the
-- invariant, the member stays one and is a candidate, and its room has a super peer.
pub handle_tcp_ack-IsServed :
    (c : ℕ) (srv : Server)
    → IsServed srv
    → IsMember c srv
    → Serves
        (λ t.
          IsServed t
          × IsMember c t
          × (is_candidate t.hub.sessions c ≡ true)
          × ((d : ℕ) × (current_super_peer_session (user_of c srv.hub).room_id t ≡ some d)))
        (handle_tcp_ack c srv)
unfolding handle_tcp_ack manager_set_super_peer_session find_user current_super_peer_session
    set_session
handle_tcp_ack-IsServed c srv h member =
    let (room, at, inside) = member_room id own c srv member in
    let before = IsHosted-at id room srv h at in
    let acked =
      with_room-Inside id Ready Led (set_super_peer_session c) (reached c srv) step (record {
        mapped = h.mapped;
        room = room;
        at = at;
        here = (
          faces-IsKeyed room srv.hub.sessions after before.elected.sound (faces room.client_map),
          before.named,
          All-map
              (λ e. ((srv.hub.sessions e.1).user.room_id ≡ id) × IsSent (srv.hub.sessions e.1).user)
              (λ e. ((after e.1).user.room_id ≡ id) × IsSent (after e.1).user) room.client_map
              (λ e p. ((reached_fields c e.1 srv).0 ∙ p.0, (reached_fields c e.1 srv).3 p.1))
              before.housed,
          inside,
        );
        others =
            others_set_session id c
              (record (srv.hub.sessions c) { user = promoted (user_of c srv.hub) }) srv.hub
              srv.rooms
              (others-IsAway id c srv.hub.sessions srv.rooms refl
                (open_room id (λ r s. Unit {0}) room srv h at tt).others)
              (open_room id (λ r s. Unit {0}) room srv h at tt).others;
      }) in
    let inner = acked.holds.0 in
    let now = acked.holds.1 in
    let candidate : is_candidate acked.server.hub.sessions c ≡ true =
      ap (λ s. is_candidate s c) now ∙ (reached_fields c c srv).4 (==_self c) in
    let (leader, led) =
      IsElected-super_peer inner.room acked.server.hub.sessions own c inner.here.0.elected
        inner.here.1 candidate in
    subst
      (λ i.
        Serves
          (λ t.
            IsServed t
            × IsMember c t
            × (is_candidate t.hub.sessions c ≡ true)
            × ((d : ℕ) × (current_super_peer_session id t ≡ some d)))
          (with_room i (set_super_peer_session c) (reached c srv)))
      (sym (reached_fields c c srv).0)
      (record {
        server = acked.server;
        returns = acked.returns;
        holds = (
          close_room id acked.server (enter id Led (IsHosted id) acked.server inner inner.here.0),
          IsMember-at c acked.server id own inner.room
              (ap (λ s. (s c).user.room_id) now ∙ (reached_fields c c srv).0)
              (ap (λ s. (s c).user.user_id) now ∙ (reached_fields c c srv).1) inner.at inner.here.1,
          candidate,
          (leader, rw inner.at led),
        );
      })
  where
    id : List ℕ
    id = (user_of c srv.hub).room_id

    own : List ℕ
    own = (user_of c srv.hub).user_id

    after : ℕ → Session
    after = (reached c srv).hub.sessions

    faces : (m : Map ℕ) → All (λ e. SameFace srv.hub.sessions after e.1) m
    faces [] = tt
    faces ((i, d) ∷ m) = (((reached_fields c d srv).1, (reached_fields c d srv).2), faces m)

    Ready : Room → (ℕ → Session) → Type 0
    Ready r s =
        IsKeyed r s
        × (r.room_id ≡ id)
        × IsHoused id r.client_map s
        × (find own r.client_map ≡ some c)

    Led : Room → (ℕ → Session) → Type 0
    Led r s = IsHosted id r s × (find own r.client_map ≡ some c)

    step :
        (r : Room)
        → Ready r after
        → Leaves (λ r' s. Led r' s × (s ≡ after)) (set_super_peer_session c r (reached c srv).hub)
    step r k =
        leaving Chosen (λ r' s. Led r' s × (s ≡ after))
          (set_super_peer_session c r (reached c srv).hub)
          (λ r' s l. (
            (
              record { elected = l.0; named = l.3 ∙ k.1; housed = rw (l.1, l.2) k.2 },
              ap (find own) l.2 ∙ k.3,
            ),
            l.1,
          ))
          (set_super_peer_session-IsElected c r (reached c srv).hub k.0
            (ap (λ i. find i r.client_map) (reached_fields c c srv).1 ∙ k.3)
            ((reached_fields c c srv).4 (==_self c)))
      where
        Chosen : Room → (ℕ → Session) → Type 0
        Chosen r' s =
            IsElected r' s × (s ≡ after) × (r'.client_map ≡ r.client_map) × (r'.room_id ≡ r.room_id)
