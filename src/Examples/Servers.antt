-- ===== src/Examples/Servers.antt =====
-- A painter and the server exchange a user.
use shared_painter.Common.{ℕ, ◌+◌, ◌≡◌, arith, true, false, List, [], ◌∷◌, ◌++◌, length, some, ok}
use shared_painter.User.{User, serialize, deserialize, new_user}
use shared_painter.User.RoundTrip.{IsWritable}
use shared_painter.Server.{Member, serialize_member, deserialize_member}
use shared_painter.Server.Interop.{
  user_of, IsSent, deserialize_member-serialize, deserialize-serialize_member,
}

abbrev joiner : User
joiner = record {
  channel = 97 ∷ [];
  user_id = 98 ∷ [];
  nick_name = [];
  listen_tcp_port = 4000;
  view_ip = [];
  local_ip = 49 ∷ [];
  super_peer_candidate = true;
  screen_recording = true;
  screen_streaming = false;
  screen_streaming_receiver = false;
}

joiner-IsWritable : IsWritable joiner
joiner-IsWritable = record {
  channel_short = omega arith;
  user_id_short = omega arith;
  nick_name_short = omega arith;
  view_ip_short = omega arith;
  local_ip_short = omega arith;
  port_fits = omega arith;
}

abbrev member : Member
member = record {
  room_id = 97 ∷ [];
  user_id = 98 ∷ [];
  nick_name = [];
  view_ip = [];
  local_ip = 49 ∷ [];
  listen_tcp_port = 4000;
  super_peer_candidate = false;
  sync_complete = true;
}

member-IsSent : IsSent member
member-IsSent = record {
  room_id_short = omega arith;
  user_id_short = omega arith;
  nick_name_short = omega arith;
  view_ip_short = omega arith;
  local_ip_short = omega arith;
  port_fits = omega arith;
}

deserialize_member-serialize_example :
    (bs : List ℕ) × (n : ℕ) × (serialize joiner ≡ ok bs)
    × (deserialize_member member bs 0 ≡ ok (record member { super_peer_candidate = true }, some n))
    × (n + 2 ≡ length bs)
deserialize_member-serialize_example = deserialize_member-serialize member joiner joiner-IsWritable

-- The super peer's id behind the only user, of length 1: the painter takes its length for a flag.
deserialize-serialize_member_example :
    (bs : List ℕ) × (serialize_member member ≡ ok bs)
    × (deserialize new_user (0 ∷ (bs ++ (1 ∷ 98 ∷ []))) 1
        ≡ ok (user_of new_user member 1 98, some (length bs + 2)))
deserialize-serialize_member_example =
    deserialize-serialize_member new_user member (0 ∷ []) [] 1 98 member-IsSent (omega arith)
      (omega arith)
