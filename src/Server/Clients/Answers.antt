-- ===== src/Server/Clients/Answers.antt =====
-- SharedPaintClient.cpp: _handle_CODE_SYSTEM_JOIN_TO_SERVER as a whole.
use shared_painter.Common.{
  ℕ, ◌≡◌, refl, sym, ap, subst, ◌∙◌, arith, Bool, true, false, List, [], ◌++◌, length, Option, none,
  some, Outcome, ok, and_then, find, All, All-find, All-map, All-both, if◌then◌else◌,
}
use shared_painter.Builder.Carries.{IsShort, Writes-flag}
use shared_painter.Wire.Bytes.{word_bytes}
use shared_painter.Wire.Write.{
  str8, emit_lem, Writes-string8, Writes-seq, Writes-int16, Writes-binary,
}
use shared_painter.Server.{Member, deserialize_member}
use shared_painter.Server.Interop.{IsSent, member_bytes}
use shared_painter.Server.Messages.{Protocol, protocol, response_join}
use shared_painter.Server.Rooms.{Hub, Room, user_of, deref, serialize_joiner_info_packet, write_to}
use shared_painter.Server.Rooms.Elections.{IsElected, id_in}
use shared_painter.Server.Rooms.Arrivals.{
  IsAway, set_session-Untouched, set_session_self, synced_self,
}
use shared_painter.Server.Clients.{
  Server, manager_joiner_info, joiner_info, current_super_peer_session, super_peer_of, id_of,
  after_join, handle_join, find_user, user_in, with_user, manager_room_cast, check_if_super_peer,
}
use shared_painter.Server.Clients.Hosting.{
  IsHosted, IsHoused, IsServed, Inside, Serves, enter, close_room, Untouched-IsHosted,
}
use shared_painter.Server.Clients.Members.{IsMember, IsMember-at}
use shared_painter.Server.Clients.Entry.{IsNew, IsJoined, join_room-Enters}
use shared_painter.Server.Clients.Welcome.{
  IsJoining, IsArrived, IsAnswered, serve_then, new_joiner_lem, cast-Inside,
  check_if_super_peer-Inside, append_members-total,
}

response_join_lem :
    (channel : List ℕ) (first : Bool) (list id : List ℕ)
    → IsShort channel
    → IsShort id
    → (p : Protocol) × (response_join channel first list id ≡ ok (some p))
unfolding response_join protocol
response_join_lem channel first list id hc hi = (
  record {
    code = 2;
    to_id = [];
    payload = str8 channel ++ (word_bytes 1 true (if first then 1 else 0) ++ (list ++ str8 id));
  },
  rw
      (emit_lem (
        Writes-seq (Writes-string8 channel hc) (
          Writes-seq (Writes-flag first) (Writes-seq (Writes-binary list) (Writes-string8 id hi)))))
      refl,
)

leader-IsShort :
    (room : Room) (hub : Hub)
    → IsElected room hub.sessions
    → IsShort (id_of room.super_peer_session hub)
leader-IsShort room hub h = go room.super_peer_session refl
  where
    go : (o : Option ℕ) → room.super_peer_session ≡ o → IsShort (id_of o hub)
    go none e = omega arith
    go (some d) e =
        All-find (λ e. IsShort e.0) (id_in hub.sessions d) room.client_map d h.sound.ids_short
          (h.sound.leads d e).0

info-total :
    (id : List ℕ) (room : Room) (hub : Hub)
    → IsHoused id room.client_map hub.sessions
    → (bs : List ℕ) × (serialize_joiner_info_packet room hub ≡ ok bs)
unfolding serialize_joiner_info_packet
info-total id room hub h =
    let (bs, e) =
      append_members-total id room.client_map hub (word_bytes 2 false (length room.client_map)) h in
    (bs, rw (emit_lem (Writes-int16 (length room.client_map) false)) e)

-- What a joining session leads to.
abbrev pub IsWelcome : ℕ → List ℕ → Bool → Server → Type 0
IsWelcome c id first t = IsServed t × IsMember c t × IsAnswered c id first t

answered :
    (c : ℕ) (id : List ℕ) (first : Bool) (t : Server)
    → IsShort id
    → (user_of c t.hub).room_id ≡ id
    → Inside id (IsArrived c id first) t
    → (list : List ℕ) × (p : Protocol) × (manager_joiner_info id t ≡ ok list)
      × (response_join id first list (id_of (current_super_peer_session id t) t.hub) ≡ ok (some p))
      × IsWelcome c id first (record t { hub = write_to c p t.hub })
unfolding manager_joiner_info current_super_peer_session write_to
answered c id first t short own h =
    let (list, listed) = info-total id h.room t.hub h.here.0.housed in
    let (p, made) =
      response_join_lem id first list (id_of h.room.super_peer_session t.hub) short
        (leader-IsShort h.room t.hub h.here.0.elected) in
    let list_of : manager_joiner_info id t ≡ ok list =
      ap (λ o. joiner_info o t.hub) h.at ∙ listed in
    let made_of : response_join id first list (id_of (current_super_peer_session id t) t.hub)
        ≡ ok (some p) =
      ap (λ o. response_join id first list (id_of (super_peer_of o) t.hub)) h.at ∙ made in
    (
      list,
      p,
      list_of,
      made_of,
      (
        close_room id (record t { hub = write_to c p t.hub })
            (record {
              mapped = h.mapped;
              room = h.room;
              at = h.at;
              here = h.here.0;
              others = h.others;
            }),
        IsMember-at c (record t { hub = write_to c p t.hub }) id (id_in t.hub.sessions c) h.room own
            refl h.at h.here.1,
        record {
          before = t;
          room = h.room;
          at = h.at;
          alone = h.here.2;
          list = list;
          listed = list_of;
          answer = p;
          made = made_of;
          sent = refl;
        },
      ),
    )

-- The last two steps.
abbrev respond : ℕ → Bool → Server → Outcome Server
respond c first srv = and_then (manager_joiner_info (user_of c srv.hub).room_id srv) λ list.
    and_then
      (response_join (user_of c srv.hub).room_id first list
        (id_of (current_super_peer_session (user_of c srv.hub).room_id srv) srv.hub))
      λ res. deref res (λ p. ok (record srv { hub = write_to c p srv.hub }))

respond-IsWelcome :
    (c : ℕ) (id : List ℕ) (first : Bool) (t : Server)
    → IsShort id
    → (user_of c t.hub).room_id ≡ id
    → Inside id (IsArrived c id first) t
    → Serves (IsWelcome c id first) (respond c first t)
respond-IsWelcome c id first t short own h =
    let (list, p, listed, made, welcome) = answered c id first t short own h in
    record {
      server = record t { hub = write_to c p t.hub };
      returns = rw (own, listed, made) refl;
      holds = welcome;
    }

after_join-IsWelcome :
    (c : ℕ) (first : Bool) (srv : Server)
    → Inside (user_of c srv.hub).room_id (IsJoining c (user_of c srv.hub).room_id first) srv
    → Serves (IsWelcome c (user_of c srv.hub).room_id first) (after_join c first srv)
unfolding after_join
after_join-IsWelcome c first srv h = rw (new_joiner_lem (user_of c srv.hub) hosted.1) (
    serve_then (λ t. Inside id (IsJoining c id first) t × (t.hub.sessions ≡ srv.hub.sessions))
      (IsWelcome c id first)
      (manager_room_cast id (user_of c srv.hub).user_id
        (some (record { code = 0; to_id = []; payload = member_bytes (user_of c srv.hub) })) false
        srv)
      (λ t. and_then (check_if_super_peer c t) (respond c first))
      (cast-Inside id (user_of c srv.hub).user_id (IsJoining c id first) _ srv h)
      (λ t k.
        let same : (user_of c t.hub).room_id ≡ id = ap (λ s. (s c).user.room_id) k.1 in
        serve_then (λ u. Inside id (IsArrived c id first) u × (u.hub.sessions ≡ t.hub.sessions))
          (IsWelcome c id first) (check_if_super_peer c t) (respond c first)
          (check_if_super_peer-Inside c id first t same k.0)
          (λ u l.
            respond-IsWelcome c id first u hosted.1.room_id_short
              (ap (λ s. (s c).user.room_id) l.1 ∙ same) l.0)))
  where
    id : List ℕ
    id = (user_of c srv.hub).room_id

    hosted : ((user_of c srv.hub).room_id ≡ id) × IsSent (user_of c srv.hub)
    hosted =
        All-find (λ e. ((user_of e.1 srv.hub).room_id ≡ id) × IsSent (user_of e.1 srv.hub))
          (id_in srv.hub.sessions c) h.room.client_map c h.here.0.housed h.here.0.added.member

-- A session that is in no room sends a join. Of its bytes, whole or cut off, the user is stored as far
-- as it is read, and what is stored has texts that fit their length bytes and an id that is free in the
-- room it names. In a server whose rooms satisfy the invariant the call then returns, the rooms satisfy
-- the invariant again, the session is a member of that room, and its answer is written last: whether
-- it is alone there, the members, and the super peer's id.
pub handle_join-IsWelcome :
    (c : ℕ) (prot : Protocol) (m : Member) (r : Option ℕ) (srv : Server)
    → IsServed srv
    → All (λ e. IsAway c e.1.client_map) srv.rooms
    → deserialize_member (user_of c srv.hub) prot.payload 0 ≡ ok (m, r)
    → IsSent (record m { view_ip = (srv.hub.sessions c).peer_ip })
    → find_user m.room_id m.user_id srv ≡ none
    → Serves (λ t. (first : Bool) × IsWelcome c m.room_id first t) (handle_join c prot srv)
unfolding handle_join find_user
handle_join-IsWelcome c prot m r srv h away parsed sent free =
    let entered = join_room-Enters c named served new in
    let here : (user_of c entered.server.hub).room_id ≡ (user_of c named.hub).room_id =
      ap (λ h. (user_of c h).room_id) entered.synced
      ∙ ap (λ u. u.room_id) (synced_self c named.hub) in
    let welcome = after_join-IsWelcome c entered.first entered.server (
      subst (λ i. Inside i (IsJoining c i entered.first) entered.server) (sym here)
        (enter (user_of c named.hub).room_id (IsJoined c (user_of c named.hub).room_id)
          (IsJoining c (user_of c named.hub).room_id entered.first) entered.server entered.inside
          (entered.inside.here, entered.counted))) in
    record {
      server = welcome.server;
      returns = rw (parsed, entered.returns) welcome.returns;
      holds = (
        entered.first,
        subst (λ i. IsWelcome c i entered.first welcome.server) (here ∙ ap (λ u. u.room_id) user_is)
            welcome.holds,
      );
    }
  where
    user : Member
    user = record m { view_ip = (srv.hub.sessions c).peer_ip }

    named : Server
    named = with_user c (λ _. user) srv

    user_is : user_of c named.hub ≡ user
    user_is =
        ap (λ s. s.user) (set_session_self c (record (srv.hub.sessions c) { user = user }) srv.hub)

    served : IsServed named
    served = record {
      mapped = h.mapped;
      hosted =
          All-map (λ e. IsAway c e.1.client_map × IsHosted e.0 e.1 srv.hub.sessions)
            (λ e. IsHosted e.0 e.1 named.hub.sessions) srv.rooms
            (λ e p.
              Untouched-IsHosted srv.hub.sessions named.hub.sessions e.0 e.1
                (set_session-Untouched c (record (srv.hub.sessions c) { user = user }) srv.hub
                  e.1.client_map p.0)
                p.1)
            (All-both (λ e. IsAway c e.1.client_map) (λ e. IsHosted e.0 e.1 srv.hub.sessions)
              srv.rooms away h.hosted);
    }

    new : IsNew c named
    new = record {
      away = away;
      free = subst (λ u. user_in (find u.room_id srv.rooms) u.user_id ≡ none) (sym user_is) free;
      sent = subst IsSent (sym user_is) sent;
    }
