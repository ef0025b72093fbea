-- ===== src/Examples/Rounds.antt =====
-- A server from its start: Anne joins, and shows that she can be reached.
use shared_painter.Common.{
  ℕ, ◌≡◌, refl, arith, Bool, true, false, [], ◌∷◌, none, some, ok, throw, fault, Outcome, same_text,
}
use shared_painter.Wire.Bytes.{word_bytes, word_value}
use shared_painter.Server.{Member, deserialize_member}
use shared_painter.Server.Interop.{IsSent}
use shared_painter.Wire.{write_binary, insert}
use shared_painter.Server.Messages.{Protocol, protocol}
use shared_painter.Server.Rooms.{Hub, user_of}
use shared_painter.Server.Rooms.Elections.{is_candidate}
use shared_painter.Server.Clients.{
  Server, on_shared_paint_received, handle_join, handle_tcp_ack, find_user,
  current_super_peer_session,
}
use shared_painter.Server.Clients.Hosting.{IsServed, Serves}
use shared_painter.Server.Clients.Members.{IsMember}
use shared_painter.Server.Clients.Reachable.{handle_tcp_ack-IsServed}
use shared_painter.Server.Clients.Answers.{IsWelcome, handle_join-IsWelcome}
use shared_painter.Server.Clients.Receipt.{Expected, joins, acks, on_shared_paint_received-IsServed}
use shared_painter.Server.Clients.Reach.{
  received, Reach, here, next, started, IsLed, Reach-IsLed, Reach-IsServed,
}

abbrev unset : Member
unset = record {
  room_id = [];
  user_id = [];
  nick_name = [];
  view_ip = [];
  local_ip = [];
  listen_tcp_port = 0;
  super_peer_candidate = false;
  sync_complete = false;
}

abbrev hub : Hub
hub = record {
  sessions =
      λ c. record { user = unset; peer_ip = 49 ∷ []; invalid_session_flag = false; closed = false };
  sent = [];
}

-- A room, an id, three empty texts, a port, and no candidate.
abbrev join : Protocol
join = record { code = 0; to_id = []; payload = 1 ∷ 97 ∷ 1 ∷ 98 ∷ 0 ∷ 0 ∷ 0 ∷ 160 ∷ 15 ∷ 0 ∷ [] }

abbrev anne : Member
anne = record unset { room_id = 97 ∷ []; user_id = 98 ∷ []; listen_tcp_port = 4000 }

anne-IsSent : IsSent (record anne { view_ip = 49 ∷ [] })
anne-IsSent = record {
  room_id_short = omega arith;
  user_id_short = omega arith;
  nick_name_short = omega arith;
  view_ip_short = omega arith;
  local_ip_short = omega arith;
  port_fits = omega arith;
}

join-parsed : deserialize_member unset join.payload 0 ≡ ok (anne, some 10)
unfolding deserialize_member word_bytes word_value
join-parsed = refl

-- A user id of five bytes, of which one arrives, is stored as that one.
cut_off :
    deserialize_member unset (1 ∷ 97 ∷ 5 ∷ 98 ∷ []) 0
    ≡ ok (record unset { room_id = 97 ∷ []; user_id = 98 ∷ [] }, none)
unfolding deserialize_member word_bytes word_value
cut_off = refl

stranger : IsMember 0 (started hub) → ⊥
unfolding find_user
stranger e = cc

join-Expected : Expected 0 join (started hub)
unfolding find_user
join-Expected = joins anne (some 10) refl stranger join-parsed anne-IsSent refl

on_shared_paint_received-IsServed_example :
    Serves IsServed (on_shared_paint_received 0 join (started hub))
on_shared_paint_received-IsServed_example =
    on_shared_paint_received-IsServed 0 join (started hub) (Reach-IsServed hub here) join-Expected

handle_join-IsWelcome_example :
    Serves (λ t. (first : Bool) × IsWelcome 0 (97 ∷ []) first t) (handle_join 0 join (started hub))
unfolding find_user
handle_join-IsWelcome_example =
    handle_join-IsWelcome 0 join anne (some 10) (started hub) (Reach-IsServed hub here) tt
      join-parsed anne-IsSent refl

abbrev server_of : Outcome Server → Server
server_of (ok s) = s
server_of (throw e) = started hub
server_of fault = started hub

abbrev joined : Server
joined = server_of (on_shared_paint_received 0 join (started hub))

joined-returns : on_shared_paint_received 0 join (started hub) ≡ ok joined
unfolding on_shared_paint_received word_bytes word_value protocol write_binary insert same_text
joined-returns = refl

joined-Reach : Reach (started hub) joined
joined-Reach = next here (received 0 join join-Expected joined-returns)

joined-IsMember : IsMember 0 joined
unfolding on_shared_paint_received word_bytes word_value protocol write_binary insert same_text
    find_user
joined-IsMember = refl

handle_tcp_ack-IsServed_example :
    Serves
      (λ t.
        IsServed t
        × IsMember 0 t
        × (is_candidate t.hub.sessions 0 ≡ true)
        × ((d : ℕ) × (current_super_peer_session (user_of 0 joined.hub).room_id t ≡ some d)))
      (handle_tcp_ack 0 joined)
handle_tcp_ack-IsServed_example =
    handle_tcp_ack-IsServed 0 joined (Reach-IsServed hub joined-Reach) joined-IsMember

abbrev ack : Protocol
ack = record { code = 5; to_id = []; payload = [] }

abbrev acked : Server
acked = server_of (on_shared_paint_received 0 ack joined)

acked-returns : on_shared_paint_received 0 ack joined ≡ ok acked
unfolding on_shared_paint_received word_bytes word_value protocol write_binary insert same_text
acked-returns = refl

acked-Reach : Reach (started hub) acked
acked-Reach = next joined-Reach (received 0 ack (acks refl joined-IsMember) acked-returns)

acked-IsMember : IsMember 0 acked
unfolding on_shared_paint_received word_bytes word_value protocol write_binary insert same_text
    find_user
acked-IsMember = refl

acked-candidate : is_candidate acked.hub.sessions 0 ≡ true
unfolding on_shared_paint_received word_bytes word_value protocol write_binary insert same_text
acked-candidate = refl

Reach-IsLed_example : IsLed 0 acked
Reach-IsLed_example = Reach-IsLed hub 0 acked-Reach acked-IsMember acked-candidate
