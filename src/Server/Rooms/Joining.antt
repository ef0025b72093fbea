-- ===== src/Server/Rooms/Joining.antt =====
-- SharedPaintRoom.cpp: addJoiner and removeJoiner, and a session that becomes a candidate, through
-- what holds of the super peer.
use shared_painter.Common.{
  ℕ, ◌≡◌, refl, sym, ap, subst, ◌∙◌, true, false, Bool-cases, inl, inr, [], ◌++◌, none, some,
  Outcome, ok, and_then, same_text, same_text_iff, find, erase, find-erase, All-erase, All-find,
  IsMap-erase, ◌==◌, ==_iff,
}
use shared_painter.Builder.Carries.{IsShort}
use shared_painter.Wire.Write.{str8}
use shared_painter.Server.Messages
use shared_painter.Server.Rooms
use shared_painter.Server.Messages.{Protocol}
use shared_painter.Server.Rooms.{
  Session, Hub, Room, user_of, set_session, set_super_peer_session,
  toss_super_peer_right_to_candidates, is_session, add_joiner, add_to, remove_joiner, remove_from,
}
use shared_painter.Server.Rooms.Members.{room_cast_lem, left_user_lem}
use shared_painter.Server.Rooms.Elections.{
  IsKeyed, IsElected, Leaves, id_in, is_candidate, same_session, some_not_none, toss-IsElected,
}

erased-IsKeyed :
    (c : ℕ) (room : Room) (s : ℕ → Session)
    → IsKeyed room s
    → find (id_in s c) room.client_map ≡ some c
    → is_session room.super_peer_session c ≡ false
    → IsKeyed (record room { client_map = erase (id_in s c) room.client_map }) s
erased-IsKeyed c room s k member other = record {
  found = IsMap-erase (id_in s c) room.client_map k.found;
  keyed = All-erase (λ e. id_in s e.1 ≡ e.0) (id_in s c) room.client_map k.keyed;
  leads = λ d e. (
    find-erase (id_in s c) (id_in s d) room.client_map ∙ rw (apart d e) (k.leads d e).0,
    (k.leads d e).1,
  );
  room_short = k.room_short;
  ids_short = All-erase (λ e. IsShort e.0) (id_in s c) room.client_map k.ids_short;
}
  where
    apart : (d : ℕ) → room.super_peer_session ≡ some d → same_text (id_in s c) (id_in s d) ≡ false
    apart d e = elim (Bool-cases (same_text (id_in s c) (id_in s d))) [
      | inl same ↦
          let one : d ≡ c = same_session (
            sym (k.leads d e).0
            ∙ ap (λ t. find t room.client_map)
                (sym ((same_text_iff (id_in s c) (id_in s d)).0 same))
            ∙ member) in
          let equal : (d == c) ≡ true = (==_iff d c).1 one in
          let unequal : (d == c) ≡ false = subst (λ o. is_session o c ≡ false) e other in cc
      | inr differ ↦ differ
    ]

vacated-IsKeyed :
    (c : ℕ) (room : Room) (s : ℕ → Session)
    → IsKeyed room s
    → IsKeyed
        (record room { client_map = erase (id_in s c) room.client_map; super_peer_session = none })
        s
vacated-IsKeyed c room s k = record {
  found = IsMap-erase (id_in s c) room.client_map k.found;
  keyed = All-erase (λ e. id_in s e.1 ≡ e.0) (id_in s c) room.client_map k.keyed;
  leads = λ d e. some_not_none (sym e);
  room_short = k.room_short;
  ids_short = All-erase (λ e. IsShort e.0) (id_in s c) room.client_map k.ids_short;
}

-- What a leave keeps and changes.
abbrev pub LeftBehind : ℕ → Room → Hub → Room → (ℕ → Session) → Type 0
LeftBehind c room hub r s =
    IsElected r s
    × (s ≡ hub.sessions)
    × (r.client_map ≡ erase (id_in hub.sessions c) room.client_map)
    × (r.room_id ≡ room.room_id)

-- The message that follows.
announced :
    (c : ℕ) (room : Room) (hub : Hub) (m : Outcome (Room × Hub))
    → IsShort room.room_id
    → IsShort (id_in hub.sessions c)
    → Leaves (LeftBehind c room hub) m
    → Leaves (LeftBehind c room hub) (
        and_then m λ p. and_then (Messages.left_user room.room_id (user_of c hub).user_id) λ prot.
          and_then
            (Rooms.room_cast (user_of c hub).user_id prot false p.0 p.1)
            λ hub'. ok (p.0, hub'))
announced c room hub m hr hi l =
    let (hub', cast, kept) =
      room_cast_lem (id_in hub.sessions c)
        (record {
          code = 3;
          to_id = [];
          payload = str8 room.room_id ++ str8 (id_in hub.sessions c);
        })
        false l.room l.hub in
    record {
      room = l.room;
      hub = hub';
      returns = rw (l.returns, left_user_lem room.room_id (id_in hub.sessions c) hr hi, cast) refl;
      holds = subst (LeftBehind c room hub l.room) (sym kept) l.holds;
    }

-- In a room that satisfies the invariant, the leave of a member returns, takes the entry of its id out
-- of the map and changes no session. The invariant holds again: a room with a candidate has a super
-- peer, which is a candidate in the room.
pub remove_joiner-IsElected :
    (c : ℕ) (room : Room) (hub : Hub)
    → IsElected room hub.sessions
    → find (id_in hub.sessions c) room.client_map ≡ some c
    → Leaves (LeftBehind c room hub) (remove_joiner c room hub)
unfolding remove_joiner
remove_joiner-IsElected c room hub h member = rw member (
    announced c room hub _ h.sound.room_short
      (All-find (λ e. IsShort e.0) (id_in hub.sessions c) room.client_map c h.sound.ids_short
        member)
      (elim (Bool-cases (is_session room.super_peer_session c)) [
        | inl leader ↦ rw leader (
            toss-IsElected
              (record room {
                client_map = erase (id_in hub.sessions c) room.client_map;
                super_peer_session = none;
              })
              hub (vacated-IsKeyed c room hub.sessions h.sound) refl)
        | inr follower ↦ rw follower (record {
          room = record room { client_map = erase (id_in hub.sessions c) room.client_map };
          hub = hub;
          returns = refl;
          holds = (
            record {
              sound = erased-IsKeyed c room hub.sessions h.sound member follower;
              elected = λ n.
                  All-erase (λ e. is_candidate hub.sessions e.1 ≡ false) (id_in hub.sessions c)
                    room.client_map (h.elected n);
            },
            refl,
            refl,
            refl,
          );
        })
      ]))
