-- ===== src/Builder/Joins.antt =====
-- SharedPainter/SystemPacketBuilder.h: the messages with which a painter joins a channel and is
-- brought up to date.
use shared_painter.Common.{
  ℕ, ◌^◌, ◌<◌, ◌≡◌, refl, arith, Bool, true, false, List, [], ◌++◌, map, length, Option, none, some,
  Outcome, ok, throw, fault, All, catch, and_then,
}
use shared_painter.Wire.{
  Reader, write_int16, write_string8, read_int16, read_string8, ◌>>=◌, done, emit,
}
use shared_painter.Wire.Bytes.{word_bytes}
use shared_painter.Wire.Write.{Writes-int16, Writes-string8, emit_lem}
use shared_painter.Wire.Read.{Reads-bind, Reads-int16, Reads-string8}
use shared_painter.Wire.Bounds.{Stays, Stays-bind, Stays-map, Stays-int16, Stays-string8}
use shared_painter.Builder.{make_packet, make_packet-frame, frame, send, parse_with, read_flag}
use shared_painter.Builder.Carries.{
  IsShort, Carries, send-Carries, parse_with-total, parse_with-Reads, Stays-flag,
}
use shared_painter.User.{User, serialize, read_user, read_users, append_users}
use shared_painter.User.RoundTrip.{
  IsWritable, serialize_lem, user_bytes, users_bytes, as_new, Reads-user, Reads-users,
  append_users_lem, Stays-users, read_user-returns,
}

-- A body made before the packet, in the same `try`.
abbrev pub send_body : ℕ → Outcome (List ℕ) → Outcome (List ℕ)
unfolding make_packet
send_body code made = catch (and_then made (λ body. make_packet code body none none)) []

unfoldable pub make_join_to_server : User → Outcome (List ℕ)
unfolding serialize make_packet
make_join_to_server user = send_body 0 (serialize user)

-- The result of `deserialize` is not looked at, so there always is a user.
unfoldable pub parse_join_to_server : List ℕ → Outcome (Option User)
unfolding parse_with read_user
parse_join_to_server = parse_with read_user

unfoldable pub make_joiner_to_super_peer : User → Outcome (List ℕ)
unfolding serialize make_packet
make_joiner_to_super_peer user = send_body 1 (serialize user)

unfoldable pub parse_joiner_to_super_peer : List ℕ → Outcome (Option User)
unfolding parse_with read_user
parse_joiner_to_super_peer = parse_with read_user

unfoldable pub parse_change_super_peer : List ℕ → Outcome (Option (List ℕ))
unfolding parse_with read_string8
parse_change_super_peer = parse_with read_string8

unfoldable pub make_sync_request : Outcome (List ℕ)
unfolding make_packet
make_sync_request = send_body 7 (ok [])

abbrev read_two : Reader (List ℕ × List ℕ)
read_two = do channel ← read_string8; target ← read_string8; done (channel, target)

unfoldable pub parse_sync_request : List ℕ → Outcome (Option (List ℕ × List ℕ))
unfolding parse_with ◌>>=◌ done read_string8
parse_sync_request = parse_with read_two

unfoldable pub make_sync_start : List ℕ → List ℕ → List ℕ → Outcome (List ℕ)
unfolding send write_string8
make_sync_start channel from_id to_id = send 8 (write_string8 channel) (some from_id) (some to_id)

unfoldable pub parse_sync_start : List ℕ → Outcome (Option (List ℕ))
unfolding parse_with read_string8
parse_sync_start = parse_with read_string8

unfoldable pub make_sync_complete : List ℕ → Outcome (List ℕ)
unfolding make_packet
make_sync_complete target_id = catch (make_packet 9 [] none (some target_id)) []

unfoldable pub make_tcp_ack : Outcome (List ℕ)
unfolding make_packet
make_tcp_ack = send_body 5 (ok [])

-- The answer to a join: `channel`, `firstFlag`, `list` and `superPeerId`.
pub record Joined : Type 0 where
  pub channel : List ℕ
  pub first_flag : Bool
  pub users : List User
  pub super_peer_id : List ℕ

abbrev read_response_join : Reader Joined
read_response_join = do
  channel ← read_string8
  first_flag ← read_flag
  count ← read_int16 false
  users ← read_users count
  super_peer_id ← read_string8
  done (record {
    channel = channel;
    first_flag = first_flag;
    users = users;
    super_peer_id = super_peer_id;
  })

unfoldable pub parse_response_join : List ℕ → Outcome (Option Joined)
unfolding parse_with ◌>>=◌ done read_string8 read_flag read_int16 read_users
parse_response_join = parse_with read_response_join

unfoldable pub make_history_user_list : List User → Outcome (List ℕ)
unfolding make_packet write_int16 append_users
make_history_user_list list =
    send_body 13 (and_then (emit (write_int16 (length list) true)) (append_users list))

-- The list, or an empty one.
abbrev pub listed : Outcome (Option (List User)) → Outcome (List User)
listed (ok (some list)) = ok list
listed (ok none) = ok []
listed (throw e) = throw e
listed fault = fault

abbrev read_history_user_list : Reader (List User)
read_history_user_list = read_int16 true >>= read_users

unfoldable pub parse_history_user_list : List ℕ → Outcome (List User)
unfolding parse_with ◌>>=◌ read_int16 read_users
parse_history_user_list body = listed (parse_with read_history_user_list body)

-- A request to synchronise and an answer to a probe are frames with no body.
pub signals-frame :
    (target_id : List ℕ)
    → IsShort target_id
    → (make_sync_request ≡ ok (frame 7 [] [] []))
      × (make_tcp_ack ≡ ok (frame 5 [] [] []))
      × (make_sync_complete target_id ≡ ok (frame 9 [] target_id []))
unfolding make_sync_request make_tcp_ack make_sync_complete
signals-frame target_id h = (
  rw (make_packet-frame 7 [] none none (omega arith) (omega arith)) refl,
  rw (make_packet-frame 5 [] none none (omega arith) (omega arith)) refl,
  rw (make_packet-frame 9 [] none (some target_id) (omega arith) h) refl,
)

-- A user who joins, at a server or at a super peer, is received as sent but for `screenStreaming`.
pub join-Carries :
    (user : User)
    → IsWritable user
    → Carries
        (make_join_to_server user)
        0
        []
        []
        parse_join_to_server
        (record user { screen_streaming = false })
      × Carries
          (make_joiner_to_super_peer user)
          1
          []
          []
          parse_joiner_to_super_peer
          (record user { screen_streaming = false })
unfolding make_join_to_server parse_join_to_server make_joiner_to_super_peer
    parse_joiner_to_super_peer
join-Carries user h = (
  record {
    body = user_bytes user;
    makes = rw (
      serialize_lem user h,
      make_packet-frame 0 (user_bytes user) none none (omega arith) (omega arith),
    );
    parses = parse_with-Reads (Reads-user user h);
  },
  record {
    body = user_bytes user;
    makes = rw (
      serialize_lem user h,
      make_packet-frame 1 (user_bytes user) none none (omega arith) (omega arith),
    );
    parses = parse_with-Reads (Reads-user user h);
  },
)

-- A synchronisation starts with the channel, and names its sender and its receiver.
pub sync_start-Carries :
    (channel from_id to_id : List ℕ)
    → IsShort channel
    → IsShort from_id
    → IsShort to_id
    → Carries (make_sync_start channel from_id to_id) 8 from_id to_id parse_sync_start channel
unfolding make_sync_start parse_sync_start
sync_start-Carries channel from_id to_id h hf ht =
    send-Carries 8 (some from_id) (some to_id) hf ht (Writes-string8 channel h)
      (Reads-string8 channel h)

-- Fewer than 65536 users come back in their order, as sent but for `screenStreaming`: the message
-- is a frame whose body parses to them.
pub history_user_list-round_trip :
    (list : List User)
    → length list < 2 ^ 16
    → All IsWritable list
    → (body : List ℕ) × (make_history_user_list list ≡ ok (frame 13 [] [] body))
      × (parse_history_user_list body ≡ ok (map as_new list))
unfolding make_history_user_list parse_history_user_list
history_user_list-round_trip list few h = (
  word_bytes 2 true (length list) ++ users_bytes list,
  rw
      (
        emit_lem (Writes-int16 (length list) true),
        append_users_lem list (word_bytes 2 true (length list)) h,
        make_packet-frame 13 (word_bytes 2 true (length list) ++ users_bytes list) none none
            (omega arith) (omega arith),
      )
      refl,
  rw
      (parse_with-Reads
        (Reads-bind read_users (Reads-int16 (length list) true few) (Reads-users list h)))
      refl,
)

Stays-two : Stays read_two
Stays-two =
    Stays-bind (λ channel. do target ← read_string8; done (channel, target)) Stays-string8
      (λ channel. Stays-map (λ target. (channel, target)) Stays-string8)

Stays-response_join : Stays read_response_join
Stays-response_join = Stays-bind _ Stays-string8 λ a. Stays-bind _ Stays-flag λ b.
    Stays-bind _ (Stays-int16 false) λ c. Stays-bind _ (Stays-users c) λ d.
      Stays-map (λ e. record { channel = a; first_flag = b; users = d; super_peer_id = e })
        Stays-string8

listed-ok :
    (m : Outcome (Option (List User))) (a : Option (List User))
    → m ≡ ok a
    → (us : List User) × (listed m ≡ ok us)
listed-ok m (some us) e = (us, rw e)
listed-ok m none e = ([], rw e)

join-returns : (body : List ℕ) → (u : User) × (parse_with read_user body ≡ ok (some u))
unfolding parse_with
join-returns body = let (p, e) = read_user-returns body 0 (omega arith) in (p.0, rw e)

-- On any bytes each of the seven parses returns, without an exception and without leaving the body.
-- A join gives a user, never false; the answer to a join, the change of the super peer and the two
-- sync messages give their fields or false; and the message with the users gives a list of users.
pub joins-total :
    (body : List ℕ)
    → ((u : User) × (parse_join_to_server body ≡ ok (some u)))
      × ((u : User) × (parse_joiner_to_super_peer body ≡ ok (some u)))
      × ((a : Option (List ℕ)) × (parse_change_super_peer body ≡ ok a))
      × ((a : Option (List ℕ × List ℕ)) × (parse_sync_request body ≡ ok a))
      × ((a : Option (List ℕ)) × (parse_sync_start body ≡ ok a))
      × ((a : Option Joined) × (parse_response_join body ≡ ok a))
      × ((us : List User) × (parse_history_user_list body ≡ ok us))
unfolding parse_join_to_server parse_joiner_to_super_peer parse_change_super_peer parse_sync_request
    parse_sync_start parse_response_join parse_history_user_list
joins-total body = (
  join-returns body,
  join-returns body,
  parse_with-total Stays-string8 body,
  parse_with-total Stays-two body,
  parse_with-total Stays-string8 body,
  parse_with-total Stays-response_join body,
  let (a, e) = parse_with-total (Stays-bind read_users (Stays-int16 true) Stays-users) body in
      listed-ok (parse_with read_history_user_list body) a e,
)
