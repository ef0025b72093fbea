-- ===== src/Server/Rooms/Takeover.antt =====
-- SharedPaintRoom.cpp: addJoiner of a session with the id of another one, where that other one is the
-- super peer.
use shared_painter.Common.{
  ℕ, ◌≡◌, refl, sym, ap, ◌∙◌, arith, true, false, Bool-cases, inl, inr, List, [], ◌∷◌, ◌++◌, Option,
  none, some, ok, same_text, same_text_iff, Map, find, place, assign, erase, All, All-place,
  All-erase, ◌==◌, ==_iff, ==_self,
}
use shared_painter.Builder.Carries.{IsShort}
use shared_painter.Wire.Write.{str8}
use shared_painter.Server.Rooms.{
  Session, Hub, Room, set_session, set_super_peer_session, is_session, add_joiner, add_to,
  remove_joiner, remove_from,
}
use shared_painter.Server.Rooms.Members.{room_cast_lem, left_user_lem}
use shared_painter.Server.Rooms.Elections.{IsKeyed, Leaves, id_in}
use shared_painter.Server.Rooms.Arrivals.{IsAway}

-- The room's super peer is a session that is not in the room.
abbrev pub IsOrphaned : ℕ → Room → Type 0
IsOrphaned d room = (room.super_peer_session ≡ some d) × IsAway d room.client_map

overwritten :
    (c d : ℕ) (k : List ℕ) (s : ℕ → Session) (m : Map ℕ)
    → (c == d) ≡ false
    → id_in s d ≡ k
    → All (λ e. id_in s e.1 ≡ e.0) m
    → IsAway d (assign k c m)
unfolding assign
overwritten c d k s [] other own h = tt
overwritten c d k s ((j, e) ∷ m) other own h = (
  elim (Bool-cases (same_text j k)) [
    | inl same ↦ rw same other
    | inr apart ↦ rw apart (elim (Bool-cases (e == d)) [
      | inl equal ↦
          let key : j ≡ k = sym h.0 ∙ ap (id_in s) ((==_iff e d).0 equal) ∙ own in
          let e' : same_text j k ≡ true = (same_text_iff j k).1 key in cc
      | inr differ ↦ differ
    ])
  ],
  overwritten c d k s m other own h.1,
)

-- When a session joins with the super peer's id, the super peer's session is closed and out of the
-- room, and stays its super peer.
pub takeover-IsOrphaned :
    (c d : ℕ) (room : Room) (hub : Hub)
    → IsKeyed room hub.sessions
    → room.super_peer_session ≡ some d
    → id_in hub.sessions c ≡ id_in hub.sessions d
    → (c == d) ≡ false
    → IsOrphaned d (add_joiner c room hub).1
      × (((add_joiner c room hub).2.sessions d).closed ≡ true)
      × (((add_joiner c room hub).2.sessions d).invalid_session_flag ≡ true)
unfolding add_joiner set_session
takeover-IsOrphaned c d room hub k led same other =
    rw (ap (λ i. find i room.client_map) same ∙ (k.leads d led).0, reversed)
      (
        (
          led,
          overwritten c d (id_in hub.sessions c) hub.sessions room.client_map other (sym same)
              k.keyed,
        ),
        rw (==_self d) refl,
        rw (==_self d) refl,
      )
  where
    reversed : (d == c) ≡ false
    reversed = ground (arith, other, ==_iff c d, ==_iff d c)

IsAway-place :
    (d c : ℕ) (k : List ℕ) (m : Map ℕ) → (c == d) ≡ false → IsAway d m → IsAway d (place k c m)
IsAway-place d c k m other h = All-place (λ e. (e.1 == d) ≡ false) k c m other h

IsAway-assign :
    (d c : ℕ) (k : List ℕ) (m : Map ℕ) → (c == d) ≡ false → IsAway d m → IsAway d (assign k c m)
unfolding assign
IsAway-assign d c k [] other h = tt
IsAway-assign d c k ((j, e) ∷ m) other h = (
  elim (Bool-cases (same_text j k)) [ inl same ↦ rw same other | inr apart ↦ rw apart h.0 ],
  IsAway-assign d c k m other h.1,
)

added-IsOrphaned :
    (c d : ℕ) (room : Room) (hub : Hub)
    → (c == d) ≡ false
    → IsOrphaned d room
    → IsOrphaned d (add_joiner c room hub).1
unfolding add_joiner
added-IsOrphaned c d room hub other h = go (find (id_in hub.sessions c) room.client_map)
  where
    go : (o : Option ℕ) → IsOrphaned d (add_to o c room hub).0
    go none = (h.0, IsAway-place d c (id_in hub.sessions c) room.client_map other h.1)
    go (some e) = elim (Bool-cases (e == c)) [
      | inl same ↦ rw same h
      | inr apart ↦
          rw apart (h.0, IsAway-assign d c (id_in hub.sessions c) room.client_map other h.1)
    ]

removed-IsOrphaned :
    (c d : ℕ) (room : Room) (hub : Hub)
    → (d == c) ≡ false
    → IsShort room.room_id
    → IsShort (id_in hub.sessions c)
    → IsOrphaned d room
    → Leaves (λ r s. IsOrphaned d r) (remove_joiner c room hub)
unfolding remove_joiner
removed-IsOrphaned c d room hub other hr hi h = go (find (id_in hub.sessions c) room.client_map)
  where
    go : (o : Option ℕ) → Leaves (λ r s. IsOrphaned d r) (remove_from o c room hub)
    go none = record { room = room; hub = hub; returns = refl; holds = h }
    go (some e) =
        let left = record room { client_map = erase (id_in hub.sessions c) room.client_map } in
        let (hub', cast, kept) =
          room_cast_lem (id_in hub.sessions c)
            (record {
              code = 3;
              to_id = [];
              payload = str8 room.room_id ++ str8 (id_in hub.sessions c);
            })
            false left hub in
        record {
          room = left;
          hub = hub';
          returns =
              rw
                (
                  ap (λ o. is_session o c) h.0 ∙ other,
                  left_user_lem room.room_id (id_in hub.sessions c) hr hi,
                  cast,
                )
                refl;
          holds =
              (h.0, All-erase (λ e. (e.1 == d) ≡ false) (id_in hub.sessions c) room.client_map h.1);
        }

-- Once a room's super peer is a session that is not in the room, no other session becomes it, whoever
-- joins, leaves, or shows that it can be reached.
pub IsOrphaned-for_good :
    (d : ℕ) (room : Room)
    → IsOrphaned d room
    → IsShort room.room_id
    → (c : ℕ) (hub : Hub) → (c == d) ≡ false
    → IsShort (id_in hub.sessions c)
    → (set_super_peer_session c room hub ≡ ok (room, hub))
      × IsOrphaned d (add_joiner c room hub).1
      × Leaves (λ r s. IsOrphaned d r) (remove_joiner c room hub)
unfolding set_super_peer_session
IsOrphaned-for_good d room h hr c hub other hi = (
  rw h.0 refl,
  added-IsOrphaned c d room hub other h,
  removed-IsOrphaned c d room hub (ground (arith, other, ==_iff c d, ==_iff d c)) hr hi h,
)
