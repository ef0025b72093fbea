-- ===== src/Server/Clients.antt =====
-- SharedPaintServer/SharedPaintManager.cpp, class SharedPaintManager, and SharedPaintClient.cpp: the
-- rooms of the server, and what a session does with the packets that it receives. The connection that
-- tests whether a painter can be reached belongs to the coconut library.
pub mod Hosting
pub mod Members
pub mod Reachable
pub mod Entry
pub mod Welcome
pub mod Answers
pub mod Casts
pub mod Nicknames
pub mod Receipt
pub mod Reach
use shared_painter.Common.{
  ℕ, zero, suc, ◌+◌, Bool, true, false, List, [], ◌∷◌, ◌++◌, length, Option, none, some, ◌==◌,
  if◌then◌else◌, Outcome, ok, throw, fault, and_then, same_text, Map, find, place, assign,
}
use shared_painter.Wire.{}
use shared_painter.Wire.Fill.{Filler, fill, fill_string8, ◌▷◌, settle}
use shared_painter.Server.{Member, deserialize_member}
use shared_painter.Server.Messages.{Protocol, response_join, new_joiner}
use shared_painter.Server.Rooms.{
  Session, Hub, Room, new_room, user_of, set_user, set_session, write_to, deref, room_cast,
  uni_cast, set_super_peer_session, add_joiner, remove_joiner, serialize_joiner_info_packet,
  sync_start,
}

pub record Server : Type 0 where
  pub rooms : Map Room
  pub hub : Hub

abbrev pub put_back : List ℕ → Server → Room × Hub → Server
put_back id srv p = record { rooms = assign id p.0 srv.rooms; hub = p.1 }

abbrev pub at_room :
    Option Room → List ℕ → (Room → Hub → Outcome (Room × Hub)) → Server → Outcome Server
at_room none id op srv = ok srv
at_room (some room) id op srv = and_then (op room srv.hub) (λ p. ok (put_back id srv p))

-- `ROOM_MAP::iterator itR = roomMap_.find( id ); if( itR != roomMap_.end() ) …`
unfoldable pub with_room : List ℕ → (Room → Hub → Outcome (Room × Hub)) → Server → Outcome Server
unfolding find assign
with_room id op srv = at_room (find id srv.rooms) id op srv

abbrev pub add_at : Option Room → ℕ → Server → Bool × Server
add_at none c srv =
    let id = (user_of c srv.hub).room_id in
    let (first, room, hub) = add_joiner c (new_room id) srv.hub in
    (first, record { rooms = place id room srv.rooms; hub = hub })
add_at (some room) c srv =
    let id = (user_of c srv.hub).room_id in
    let (first, room', hub) = add_joiner c room srv.hub in
    (first, record { rooms = assign id room' srv.rooms; hub = hub })

unfoldable pub join_room : ℕ → Server → Bool × Server
unfolding find place assign add_joiner new_room
join_room c srv = add_at (find (user_of c srv.hub).room_id srv.rooms) c srv

unfoldable pub leave_room : ℕ → Server → Outcome Server
unfolding with_room remove_joiner
leave_room c srv = with_room (user_of c srv.hub).room_id (remove_joiner c) srv

abbrev pub only_hub : (Room → Hub → Outcome Hub) → Room → Hub → Outcome (Room × Hub)
only_hub op room hub = and_then (op room hub) (λ hub'. ok (room, hub'))

unfoldable pub manager_uni_cast : List ℕ → Option Protocol → Server → Outcome Server
unfolding with_room uni_cast
manager_uni_cast id prot srv = with_room id (only_hub (uni_cast prot)) srv

unfoldable pub manager_room_cast :
    List ℕ → List ℕ → Option Protocol → Bool → Server → Outcome Server
unfolding with_room room_cast
manager_room_cast id from_id prot send_myself srv =
    with_room id (only_hub (room_cast from_id prot send_myself)) srv

unfoldable pub manager_set_super_peer_session : ℕ → Server → Outcome Server
unfolding with_room set_super_peer_session
manager_set_super_peer_session c srv =
    with_room (user_of c srv.hub).room_id (set_super_peer_session c) srv

unfoldable pub manager_sync_start : List ℕ → List ℕ → Server → Outcome Server
unfolding with_room sync_start
manager_sync_start id target srv = with_room id (sync_start target) srv

abbrev pub super_peer_of : Option Room → Option ℕ
super_peer_of none = none
super_peer_of (some room) = room.super_peer_session

unfoldable pub current_super_peer_session : List ℕ → Server → Option ℕ
unfolding find
current_super_peer_session id srv = super_peer_of (find id srv.rooms)

abbrev pub user_in : Option Room → List ℕ → Option ℕ
user_in none user_id = none
user_in (some room) user_id = find user_id room.client_map

unfoldable pub find_user : List ℕ → List ℕ → Server → Option ℕ
unfolding find
find_user id user_id srv = user_in (find id srv.rooms) user_id

abbrev pub joiner_info : Option Room → Hub → Outcome (List ℕ)
joiner_info none hub = ok []
joiner_info (some room) hub = serialize_joiner_info_packet room hub

unfoldable pub manager_joiner_info : List ℕ → Server → Outcome (List ℕ)
unfolding find serialize_joiner_info_packet
manager_joiner_info id srv = joiner_info (find id srv.rooms) srv.hub

-- The sum of `totalUserCount`.
unfoldable pub total_user_count : Map Room → ℕ
total_user_count [] = 0
total_user_count ((id, room) ∷ m) = length room.client_map + total_user_count m

-- SharedPaintClient

abbrev pub with_user : ℕ → (Member → Member) → Server → Server
with_user c change srv = record srv { hub = set_user c (change (user_of c srv.hub)) srv.hub }

unfoldable pub check_if_super_peer : ℕ → Server → Outcome Server
unfolding manager_set_super_peer_session
check_if_super_peer c srv =
    if (user_of c srv.hub).super_peer_candidate
    then manager_set_super_peer_session c srv
    else ok srv

abbrev pub id_of : Option ℕ → Hub → List ℕ
id_of none hub = []
id_of (some c) hub = (user_of c hub).user_id

-- From `joinRoom` on.
unfoldable pub after_join : ℕ → Bool → Server → Outcome Server
unfolding manager_room_cast check_if_super_peer manager_joiner_info current_super_peer_session
    response_join new_joiner write_to
after_join c first srv = and_then (new_joiner (user_of c srv.hub)) λ noti.
    and_then
      (manager_room_cast (user_of c srv.hub).room_id (user_of c srv.hub).user_id noti false srv)
      λ srv₁. and_then (check_if_super_peer c srv₁) λ srv₂.
        and_then (manager_joiner_info (user_of c srv₂.hub).room_id srv₂) λ list.
          and_then
            (response_join (user_of c srv₂.hub).room_id first list
              (id_of (current_super_peer_session (user_of c srv₂.hub).room_id srv₂) srv₂.hub))
            λ res. deref res (λ p. ok (record srv₂ { hub = write_to c p srv₂.hub }))

unfoldable pub handle_join : ℕ → Protocol → Server → Outcome Server
unfolding deserialize_member join_room after_join set_session
handle_join c prot srv = and_then (deserialize_member (user_of c srv.hub) prot.payload 0) λ p.
    let named = with_user c (λ _. record p.0 { view_ip = (srv.hub.sessions c).peer_ip }) srv in
    let (first, joined) = join_room c named in after_join c first joined

-- `prot->header().toId().empty()`
unfoldable pub relay : ℕ → Protocol → Server → Outcome Server
unfolding manager_room_cast manager_uni_cast
relay c prot srv =
    if length prot.to_id == 0
    then manager_room_cast (user_of c srv.hub).room_id (user_of c srv.hub).user_id (some prot) false
        srv
    else manager_uni_cast (user_of c srv.hub).room_id (some prot) srv

-- The two strings of `ChangeNickName::parse`, whose result is not looked at.
unfoldable pub fill_nick_name : Filler (List ℕ × List ℕ)
unfolding fill ◌▷◌ fill_string8
fill_nick_name = fill_string8 (λ v p. (v, p.1)) ▷ fill_string8 (λ v p. (p.0, v))

abbrev pub rename : Option ℕ → List ℕ → Server → (Server → Outcome Server) → Outcome Server
rename none nick_name srv next = ok srv
rename (some d) nick_name srv next =
    next (with_user d (λ m. record m { nick_name = nick_name }) srv)

unfoldable pub handle_change_nick_name : ℕ → Protocol → Server → Outcome Server
unfolding fill_nick_name find_user relay set_session
handle_change_nick_name c prot srv =
    and_then (settle (fill_nick_name ([], []) prot.payload 0))
      λ p. rename (find_user (user_of c srv.hub).room_id p.0.0 srv) p.0.1 srv (relay c prot)

unfoldable pub handle_sync_request : ℕ → Server → Outcome Server
unfolding manager_sync_start
handle_sync_request c srv =
    manager_sync_start (user_of c srv.hub).room_id (user_of c srv.hub).user_id srv

unfoldable pub handle_tcp_ack : ℕ → Server → Outcome Server
unfolding manager_set_super_peer_session set_session
handle_tcp_ack c srv =
    manager_set_super_peer_session c
      (with_user c (λ m. record m { super_peer_candidate = true }) srv)

unfoldable pub on_shared_paint_received : ℕ → Protocol → Server → Outcome Server
unfolding handle_join leave_room handle_tcp_ack handle_sync_request handle_change_nick_name relay
on_shared_paint_received c prot srv =
    if prot.code == 0
    then handle_join c prot srv
    else if prot.code == 3
    then leave_room c srv
    else if prot.code == 5
    then handle_tcp_ack c srv
    else if prot.code == 7
    then handle_sync_request c srv
    else if prot.code == 11
    then handle_change_nick_name c prot srv
    else relay c prot srv

-- `onClosed`, and `onError`.
unfoldable pub on_closed : ℕ → Server → Outcome Server
unfolding leave_room
on_closed c srv = if (srv.hub.sessions c).invalid_session_flag then ok srv else leave_room c srv
