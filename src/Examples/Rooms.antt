-- ===== src/Examples/Rooms.antt =====
-- Two sessions and their room.
use shared_painter.Common.{
  ℕ, ◌≡◌, ◌≢◌, refl, sym, ap, subst, ◌∙◌, arith, Bool, true, false, List, [], ◌∷◌, Option, none,
  some, ok, find, same_text, if◌then◌else◌, ◌==◌,
}
use shared_painter.Server.{Member}
use shared_painter.Server.Messages.{Protocol}
use shared_painter.Server.Rooms.{
  Session, Hub, Room, add_joiner, remove_joiner, sync_start, cast_to, set_super_peer_session,
}
use shared_painter.Server.Rooms.Elections.{IsElected, Leaves, id_in, is_candidate}
use shared_painter.Server.Rooms.Joining.{LeftBehind, remove_joiner-IsElected}
use shared_painter.Server.Rooms.Members.{recipients, write_all, cast_to-write_all}
use shared_painter.Server.Rooms.Runners.{Fits, IsAsked, sync_start-IsAsked}
use shared_painter.Server.Rooms.Takeover.{IsOrphaned, takeover-IsOrphaned, IsOrphaned-for_good}

abbrev a_room : List ℕ
a_room = 97 ∷ []

abbrev anne : List ℕ
anne = 98 ∷ []

abbrev bert : List ℕ
bert = 99 ∷ []

abbrev user : List ℕ → Bool → Member
user id candidate = record {
  room_id = a_room;
  user_id = id;
  nick_name = [];
  view_ip = [];
  local_ip = [];
  listen_tcp_port = 4000;
  super_peer_candidate = candidate;
  sync_complete = true;
}

abbrev session : List ℕ → Session
session id = record {
  user = user id true;
  peer_ip = [];
  invalid_session_flag = false;
  closed = false;
}

-- Session 0 is Anne's, session 1 is Bert's, and the others are new ones of Anne.
abbrev hub : Hub
hub = record { sessions = λ c. if c == 1 then session bert else session anne; sent = [] }

abbrev room : Room
room = record {
  room_id = a_room;
  super_peer_session = some 0;
  client_map = (anne, 0) ∷ (bert, 1) ∷ [];
  last_sync_runner_index = 0;
}

abbrev orphaned : Room
orphaned = record room { client_map = (anne, 2) ∷ (bert, 1) ∷ [] }

same_leader : {a b : ℕ} → some a ≡ some b → a ≡ b
same_leader e = cc

room-IsElected : IsElected room hub.sessions
unfolding find same_text
room-IsElected = record {
  sound = record {
    found = (refl, (refl, tt));
    keyed = (refl, (refl, tt));
    leads = λ c e.
        subst
          (λ d.
            (find (id_in hub.sessions d) room.client_map ≡ some d)
            × (is_candidate hub.sessions d ≡ true))
          (same_leader e) (refl, refl);
    room_short = omega arith;
    ids_short = (omega arith, (omega arith, tt));
  };
  elected = λ n. cc;
}

message : Protocol
message = record { code = 40; to_id = []; payload = [] }

cast_to-write_all_example :
    cast_to room.client_map anne (some message) false hub
    ≡ ok (write_all (recipients room.client_map anne false) message hub)
cast_to-write_all_example = cast_to-write_all room.client_map anne message false hub

remove_joiner-IsElected_example : Leaves (LeftBehind 0 room hub) (remove_joiner 0 room hub)
unfolding find same_text
remove_joiner-IsElected_example = remove_joiner-IsElected 0 room hub room-IsElected refl

bert-Fits : Fits room.client_map anne bert
unfolding find same_text
bert-Fits = record { session = 1; member = refl; other = refl }

named : (id : List ℕ) → Fits room.client_map anne id → id ≢ []
unfolding find same_text
named id fits e =
    let absent : ◌≡◌ {A = Option ℕ} none (some fits.session) =
      ap (λ i. find i room.client_map) (sym e) ∙ fits.member in
    cc

sync_start-IsAsked_example : IsAsked anne room hub (sync_start anne room hub)
sync_start-IsAsked_example =
    sync_start-IsAsked anne room hub room-IsElected.sound.found named (omega arith) (omega arith)
      bert bert-Fits

takeover-IsOrphaned_example :
    IsOrphaned 0 (add_joiner 2 room hub).1
    × (((add_joiner 2 room hub).2.sessions 0).closed ≡ true)
    × (((add_joiner 2 room hub).2.sessions 0).invalid_session_flag ≡ true)
takeover-IsOrphaned_example = takeover-IsOrphaned 2 0 room hub room-IsElected.sound refl refl refl

IsOrphaned-for_good_example :
    (set_super_peer_session 1 orphaned hub ≡ ok (orphaned, hub))
    × IsOrphaned 0 (add_joiner 1 orphaned hub).1
    × Leaves (λ r s. IsOrphaned 0 r) (remove_joiner 1 orphaned hub)
IsOrphaned-for_good_example =
    IsOrphaned-for_good 0 orphaned (refl, (refl, (refl, tt))) (omega arith) 1 hub refl (omega arith)
