-- ===== src/Server/Rooms/Elections.antt =====
-- SharedPaintRoom.cpp: the super peer of a room, as long as no id is taken over by another session.
use shared_painter.Common.{
  ℕ, ◌≡◌, refl, sym, subst, ◌∙◌, Bool, true, false, Bool-cases, inl, inr, List, [], ◌∷◌, Option,
  none, some, Outcome, ok, Map, find, All, All-find, All-both, IsMap, if◌then◌else◌,
}
use shared_painter.Wire.Write.{str8}
use shared_painter.Builder.Carries.{IsShort}
use shared_painter.Server.Rooms.{
  Session, Hub, Room, set_super_peer_session, take_right, first_candidate,
  toss_super_peer_right_to_candidates, toss_to,
}
use shared_painter.Server.Rooms.Members.{room_cast_lem, change_super_peer_lem}

abbrev Sessions : Type 0
Sessions = ℕ → Session

abbrev pub is_candidate : (ℕ → Session) → ℕ → Bool
is_candidate sessions c = (sessions c).user.super_peer_candidate

abbrev pub id_in : (ℕ → Session) → ℕ → List ℕ
id_in sessions c = (sessions c).user.user_id

-- Each entry stands under the id of its session; the super peer is a candidate in the room; and the
-- ids fit their length bytes.
pub record IsKeyed (room : Room) (sessions : ℕ → Session) : Type 0 where
  pub found : IsMap room.client_map
  pub keyed : All (λ e. id_in sessions e.1 ≡ e.0) room.client_map
  pub leads :
      (c : ℕ)
      → room.super_peer_session ≡ some c
      → (find (id_in sessions c) room.client_map ≡ some c) × (is_candidate sessions c ≡ true)
  pub room_short : IsShort room.room_id
  pub ids_short : All (λ e. IsShort e.0) room.client_map

-- No session of the room could be the super peer.
abbrev pub NoCandidate : Map ℕ → (ℕ → Session) → Type 0
NoCandidate m sessions = All (λ e. is_candidate sessions e.1 ≡ false) m

-- A room with a candidate has a super peer.
pub record IsElected (room : Room) (sessions : ℕ → Session) : Type 0 where
  pub sound : IsKeyed room sessions
  pub elected : room.super_peer_session ≡ none → NoCandidate room.client_map sessions

-- What a call of a room leaves: it returns, and the room and the sessions satisfy `P`.
pub record Leaves (P : Room → (ℕ → Session) → Type 0) (m : Outcome (Room × Hub)) : Type 0 where
  pub room : Room
  pub hub : Hub
  pub returns : m ≡ ok (room, hub)
  pub holds : P room hub.sessions

pub some_not_none : {A : Type 0} {a : A} {P : Type 0} → some a ≡ none → P
some_not_none e = cc

pub same_session : {a b : ℕ} → some a ≡ some b → a ≡ b
same_session e = cc

-- A candidate in the room takes the right, unless another session has it.
pub set_super_peer_session-IsElected :
    (c : ℕ) (room : Room) (hub : Hub)
    → IsKeyed room hub.sessions
    → find (id_in hub.sessions c) room.client_map ≡ some c
    → is_candidate hub.sessions c ≡ true
    → Leaves
        (λ r s.
          IsElected r s
          × (s ≡ hub.sessions)
          × (r.client_map ≡ room.client_map)
          × (r.room_id ≡ room.room_id))
        (set_super_peer_session c room hub)
unfolding set_super_peer_session
set_super_peer_session-IsElected c room hub k member candidate = go room.super_peer_session refl
  where
    go :
        (o : Option ℕ)
        → room.super_peer_session ≡ o
        → Leaves
            (λ r s.
              IsElected r s
              × (s ≡ hub.sessions)
              × (r.client_map ≡ room.client_map)
              × (r.room_id ≡ room.room_id))
            (take_right c o room hub)
    go (some d) e = record {
      room = room;
      hub = hub;
      returns = refl;
      holds = (record { sound = k; elected = λ n. some_not_none (sym e ∙ n) }, refl, refl, refl);
    }
    go none e =
        let short =
          All-find (λ e. IsShort e.0) (id_in hub.sessions c) room.client_map c k.ids_short member in
        let (hub', cast, kept) =
          room_cast_lem (id_in hub.sessions c)
            (record { code = 6; to_id = []; payload = str8 (id_in hub.sessions c) }) true room
            hub in
        record {
          room = record room { super_peer_session = some c };
          hub = hub';
          returns = rw (change_super_peer_lem (id_in hub.sessions c) short, cast) refl;
          holds = (
            subst (IsElected (record room { super_peer_session = some c })) (sym kept) (record {
              sound = record {
                found = k.found;
                keyed = k.keyed;
                leads = λ d e.
                    subst
                      (λ x.
                        (find (id_in hub.sessions x) room.client_map ≡ some x)
                        × (is_candidate hub.sessions x ≡ true))
                      (same_session e) (member, candidate);
                room_short = k.room_short;
                ids_short = k.ids_short;
              };
              elected = λ n. some_not_none n;
            }),
            kept,
            refl,
            refl,
          );
        }

-- The first candidate is a member, and where there is none no member is one.
first_candidate_lem :
    (whole m : Map ℕ) (hub : Hub)
    → All (λ e. (find e.0 whole ≡ some e.1) × (id_in hub.sessions e.1 ≡ e.0)) m
    → ((first_candidate m hub ≡ none → NoCandidate m hub.sessions)
        × ((c : ℕ)
            → first_candidate m hub ≡ some c
            → (find (id_in hub.sessions c) whole ≡ some c) × (is_candidate hub.sessions c ≡ true)))
unfolding first_candidate
first_candidate_lem whole [] hub h = (λ e. tt, λ c e. some_not_none (sym e))
first_candidate_lem whole ((id, d) ∷ m) hub h =
    let rest = first_candidate_lem whole m hub h.1 in
    elim (Bool-cases (is_candidate hub.sessions d)) [
      | inl fit ↦ (
        λ e.
            some_not_none (subst (λ b. (if b then some d else first_candidate m hub) ≡ none) fit e),
        λ c e.
            subst
              (λ x.
                (find (id_in hub.sessions x) whole ≡ some x) × (is_candidate hub.sessions x ≡ true))
              (same_session
                (subst (λ b. (if b then some d else first_candidate m hub) ≡ some c) fit e))
              (rw h.0.1 h.0.0, fit),
      )
      | inr unfit ↦ (
        λ e. (
          unfit,
          rest.0 (subst (λ b. (if b then some d else first_candidate m hub) ≡ none) unfit e),
        ),
        λ c e.
            rest.1 c (subst (λ b. (if b then some d else first_candidate m hub) ≡ some c) unfit e),
      )
    ]

-- The right is tossed where there is none.
pub toss-IsElected :
    (room : Room) (hub : Hub)
    → IsKeyed room hub.sessions
    → room.super_peer_session ≡ none
    → Leaves
        (λ r s.
          IsElected r s
          × (s ≡ hub.sessions)
          × (r.client_map ≡ room.client_map)
          × (r.room_id ≡ room.room_id))
        (toss_super_peer_right_to_candidates room hub)
unfolding toss_super_peer_right_to_candidates
toss-IsElected room hub k vacant = go (first_candidate room.client_map hub) refl
  where
    facts :
        All
          (λ e. (find e.0 room.client_map ≡ some e.1) × (id_in hub.sessions e.1 ≡ e.0))
          room.client_map
    facts =
        All-both (λ e. find e.0 room.client_map ≡ some e.1) (λ e. id_in hub.sessions e.1 ≡ e.0)
          room.client_map k.found k.keyed

    go :
        (o : Option ℕ)
        → first_candidate room.client_map hub ≡ o
        → Leaves
            (λ r s.
              IsElected r s
              × (s ≡ hub.sessions)
              × (r.client_map ≡ room.client_map)
              × (r.room_id ≡ room.room_id))
            (toss_to o room hub)
    go none e = record {
      room = room;
      hub = hub;
      returns = refl;
      holds = (
        record {
          sound = k;
          elected = λ n. (first_candidate_lem room.client_map room.client_map hub facts).0 e;
        },
        refl,
        refl,
        refl,
      );
    }
    go (some c) e =
        let p = (first_candidate_lem room.client_map room.client_map hub facts).1 c e in
        set_super_peer_session-IsElected c room hub k p.0 p.1
