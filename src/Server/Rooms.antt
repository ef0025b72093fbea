-- ===== src/Server/Rooms.antt =====
-- SharedPaintServer/SharedPaintRoom.h and .cpp, class SharedPaintRoom. A session, which the source
-- shares by pointers, is a number, and what it points to is in the hub that all rooms use.
pub mod Members
pub mod Elections
pub mod Joining
pub mod Arrivals
pub mod Takeover
pub mod Runners
use shared_painter.Common.{
  ℕ, zero, suc, ◌+◌, ◌%◌, Bool, true, false, not, ◌&&◌, List, [], ◌∷◌, ◌++◌, length, Option, none,
  some, ◌==◌, if◌then◌else◌, Outcome, ok, throw, fault, and_then, same_text, Map, find, place,
  assign, erase,
}
use shared_painter.Wire.{write_int16, emit}
use shared_painter.Server.{Member, serialize_member}
use shared_painter.Server.Messages.{Protocol, change_super_peer, request_sync, left_user}

-- SharedPaintClient. `peer_ip` is what the socket says of the other end.
pub record Session : Type 0 where
  pub user : Member
  pub peer_ip : List ℕ
  pub invalid_session_flag : Bool
  pub closed : Bool

-- The sessions, and what was written to their sockets, the oldest first.
pub record Hub : Type 0 where
  pub sessions : ℕ → Session
  pub sent : List (ℕ × Protocol)

pub record Room : Type 0 where
  pub room_id : List ℕ
  pub super_peer_session : Option ℕ
  pub client_map : Map ℕ
  pub last_sync_runner_index : ℕ

unfoldable pub new_room : List ℕ → Room
new_room room_id = record {
  room_id = room_id;
  super_peer_session = none;
  client_map = [];
  last_sync_runner_index = 0;
}

abbrev pub user_of : ℕ → Hub → Member
user_of c hub = (hub.sessions c).user

unfoldable pub set_session : ℕ → Session → Hub → Hub
set_session c s hub = record hub { sessions = λ d. if d == c then s else hub.sessions d }

abbrev pub set_user : ℕ → Member → Hub → Hub
set_user c m hub = set_session c (record (hub.sessions c) { user = m }) hub

unfoldable pub write_to : ℕ → Protocol → Hub → Hub
write_to c prot hub = record hub { sent = hub.sent ++ ((c, prot) ∷ []) }

-- A call on a protocol that may be a null pointer.
abbrev pub deref : {A : Type 0} → Option Protocol → (Protocol → Outcome A) → Outcome A
deref none k = fault
deref (some prot) k = k prot

-- The loop of `roomCast`.
unfoldable pub cast_to : Map ℕ → List ℕ → Option Protocol → Bool → Hub → Outcome Hub
unfolding write_to
cast_to [] from_id prot send_myself hub = ok hub
cast_to ((id, c) ∷ m) from_id prot send_myself hub =
    and_then
      (if not send_myself && same_text id from_id
        then ok hub
        else deref prot (λ p. ok (write_to c p hub)))
      (cast_to m from_id prot send_myself)

unfoldable pub room_cast : List ℕ → Option Protocol → Bool → Room → Hub → Outcome Hub
unfolding cast_to
room_cast from_id prot send_myself room hub = cast_to room.client_map from_id prot send_myself hub

abbrev pub to_session : Option ℕ → Protocol → Hub → Hub
to_session none prot hub = hub
to_session (some c) prot hub = write_to c prot hub

unfoldable pub uni_cast : Option Protocol → Room → Hub → Outcome Hub
unfolding find write_to
uni_cast prot room hub = deref prot (λ p. ok (to_session (find p.to_id room.client_map) p hub))

-- `client != superPeerSession_` and that there is none yet.
abbrev pub take_right : ℕ → Option ℕ → Room → Hub → Outcome (Room × Hub)
take_right c (some current) room hub = ok (room, hub)
take_right c none room hub = and_then (change_super_peer (user_of c hub).user_id) λ prot.
    and_then (room_cast (user_of c hub).user_id prot true room hub)
      λ hub'. ok (record room { super_peer_session = some c }, hub')

unfoldable pub set_super_peer_session : ℕ → Room → Hub → Outcome (Room × Hub)
unfolding room_cast change_super_peer
set_super_peer_session c room hub = take_right c room.super_peer_session room hub

-- The first candidate in the order of the ids.
unfoldable pub first_candidate : Map ℕ → Hub → Option ℕ
first_candidate [] hub = none
first_candidate ((id, c) ∷ m) hub =
    let rest = first_candidate m hub in
    if (user_of c hub).super_peer_candidate then some c else rest

abbrev pub toss_to : Option ℕ → Room → Hub → Outcome (Room × Hub)
toss_to none room hub = ok (room, hub)
toss_to (some c) room hub = set_super_peer_session c room hub

unfoldable pub toss_super_peer_right_to_candidates : Room → Hub → Outcome (Room × Hub)
unfolding first_candidate set_super_peer_session
toss_super_peer_right_to_candidates room hub =
    toss_to (first_candidate room.client_map hub) room hub

abbrev pub is_session : Option ℕ → ℕ → Bool
is_session none c = false
is_session (some d) c = d == c

abbrev pub add_to : Option ℕ → ℕ → Room → Hub → Room × Hub
add_to none c room hub = (
  record room { client_map = place (user_of c hub).user_id c room.client_map },
  set_user c (record (user_of c hub) { sync_complete = true }) hub,
)
add_to (some d) c room hub = if d == c then (room, hub) else (
  record room { client_map = assign (user_of c hub).user_id c room.client_map },
  set_session d (record (hub.sessions d) { invalid_session_flag = true; closed = true }) hub,
)

-- `firstFlag` stands first.
unfoldable pub add_joiner : ℕ → Room → Hub → Bool × Room × Hub
unfolding find place assign set_session
add_joiner c room hub =
    let (room', hub') = add_to (find (user_of c hub).user_id room.client_map) c room hub in
    (length room'.client_map == 1, room', hub')

abbrev pub remove_from : Option ℕ → ℕ → Room → Hub → Outcome (Room × Hub)
remove_from none c room hub = ok (room, hub)
remove_from (some d) c room hub =
    let erased = record room { client_map = erase (user_of c hub).user_id room.client_map } in
    and_then
      (if is_session room.super_peer_session c
        then toss_super_peer_right_to_candidates (record erased { super_peer_session = none }) hub
        else ok (erased, hub))
      λ p. and_then (left_user room.room_id (user_of c hub).user_id) λ prot.
        and_then (room_cast (user_of c hub).user_id prot false p.0 p.1) λ hub'. ok (p.0, hub')

unfoldable pub remove_joiner : ℕ → Room → Hub → Outcome (Room × Hub)
unfolding find erase toss_super_peer_right_to_candidates room_cast left_user
remove_joiner c room hub = remove_from (find (user_of c hub).user_id room.client_map) c room hub

unfoldable pub append_members : Map ℕ → Hub → List ℕ → Outcome (List ℕ)
unfolding serialize_member
append_members [] hub body = ok body
append_members ((id, c) ∷ m) hub body =
    and_then (serialize_member (user_of c hub)) (λ s. append_members m hub (body ++ s))

unfoldable pub serialize_joiner_info_packet : Room → Hub → Outcome (List ℕ)
unfolding append_members write_int16
serialize_joiner_info_packet room hub =
    and_then (emit (write_int16 (length room.client_map) false))
      (append_members room.client_map hub)

-- Both loops of `syncStart` go to the end, so that the last id that fits is the runner.
unfoldable pub first_try : ℕ → ℕ → List ℕ → Map ℕ → List ℕ → List ℕ
first_try i last target [] runner = runner
first_try i last target ((id, c) ∷ m) runner =
    first_try (suc i) last target m
      (if i == last then runner else if same_text target id then runner else id)

unfoldable pub second_try : List ℕ → Map ℕ → List ℕ → List ℕ
second_try target [] runner = runner
second_try target ((id, c) ∷ m) runner =
    second_try target m (if same_text target id then runner else id)

abbrev pub ask_runner : List ℕ → List ℕ → Room → Hub → Outcome (Room × Hub)
ask_runner [] target room hub = ok (room, hub)
ask_runner (x ∷ xs) target room hub =
    and_then (request_sync room.room_id (x ∷ xs) target)
      λ prot. and_then (uni_cast prot room hub) λ hub'. ok (room, hub')

abbrev pub tried : List ℕ → List ℕ → Room → Hub → Outcome (Room × Hub)
tried [] target room hub = ask_runner (second_try target room.client_map []) target room hub
tried (x ∷ xs) target room hub =
    ask_runner (x ∷ xs) target
      (record room {
        last_sync_runner_index = (room.last_sync_runner_index + 1) % length room.client_map;
      })
      hub

unfoldable pub sync_start : List ℕ → Room → Hub → Outcome (Room × Hub)
unfolding first_try second_try request_sync uni_cast
sync_start target room hub =
    tried (first_try 0 room.last_sync_runner_index target room.client_map []) target room hub
