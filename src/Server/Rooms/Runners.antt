-- ===== src/Server/Rooms/Runners.antt =====
-- SharedPaintRoom.cpp: the runner that syncStart chooses.
use shared_painter.Common.{
  ℕ, suc, ◌+◌, ◌%◌, ◌≡◌, ◌≢◌, refl, subst, ◌∙◌, true, false, Bool-cases, ◌⊎◌, inl, inr, List, [],
  ◌∷◌, ◌++◌, length, some, Outcome, ok, same_text, same_text_iff, Map, find, All, ◌==◌,
  if◌then◌else◌, IsMap,
}
use shared_painter.Builder.Carries.{IsShort}
use shared_painter.Wire.Write.{str8}
use shared_painter.Server.Rooms.{
  Hub, Room, first_try, second_try, sync_start, tried, ask_runner, uni_cast, write_to,
}
use shared_painter.Server.Rooms.Members.{request_sync_lem}

-- A member of the room that is not the one that wants the sync.
pub record Fits (whole : Map ℕ) (target id : List ℕ) : Type 0 where
  pub session : ℕ
  pub member : find id whole ≡ some session
  pub other : same_text target id ≡ false

first_try_lem :
    (i last : ℕ) (target : List ℕ) (whole m : Map ℕ) (runner : List ℕ)
    → All (λ e. find e.0 whole ≡ some e.1) m
    → (runner ≡ []) ⊎ Fits whole target runner
    → (first_try i last target m runner ≡ []) ⊎ Fits whole target (first_try i last target m runner)
unfolding first_try
first_try_lem i last target whole [] runner h start = start
first_try_lem i last target whole ((id, c) ∷ m) runner h start =
    first_try_lem (suc i) last target whole m
      (if i == last then runner else if same_text target id then runner else id) h.1
      (elim (Bool-cases (i == last)) [
        | inl skip ↦ rw skip start
        | inr tries ↦ elim (Bool-cases (same_text target id)) [
          | inl same ↦ rw (tries, same) start
          | inr other ↦
              rw (tries, other) (inr (record { session = c; member = h.0; other = other }))
        ]
      ])

-- The second loop finds a member where one fits.
second_try_lem :
    (target : List ℕ) (whole m : Map ℕ) (runner : List ℕ)
    → All (λ e. find e.0 whole ≡ some e.1) m
    → Fits whole target runner
      ⊎ ((j : List ℕ) × (d : ℕ) × (find j m ≡ some d) × (same_text target j ≡ false))
    → Fits whole target (second_try target m runner)
unfolding second_try find
second_try_lem target whole [] runner h (inl fits) = fits
second_try_lem target whole [] runner h (inr (j, d, found, other)) = cc
second_try_lem target whole ((id, c) ∷ m) runner h start =
    second_try_lem target whole m (if same_text target id then runner else id) h.1
      (elim (Bool-cases (same_text target id)) [
        | inl same ↦ rw same (go same start)
        | inr other ↦ rw other (inl (record { session = c; member = h.0; other = other }))
      ])
  where
    go :
        same_text target id ≡ true
        → Fits whole target runner
          ⊎ ((j : List ℕ) × (d : ℕ) × (find j ((id, c) ∷ m) ≡ some d)
              × (same_text target j ≡ false))
        → Fits whole target runner
          ⊎ ((j : List ℕ) × (d : ℕ) × (find j m ≡ some d) × (same_text target j ≡ false))
    go same (inl fits) = inl fits
    go same (inr (j, d, found, other)) = elim (Bool-cases (same_text id j)) [
      | inl equal ↦
          let e : same_text target j ≡ true =
            (same_text_iff target j).1
              ((same_text_iff target id).0 same ∙ (same_text_iff id j).0 equal) in
          cc
      | inr apart ↦
          inr (j, d, subst (λ b. (if b then some c else find j m) ≡ some d) apart found, other)
    ]

-- The request that a runner gets.
pub record IsAsked (target : List ℕ) (room : Room) (hub : Hub) (m : Outcome (Room × Hub))
    : Type 0 where
  pub runner : List ℕ
  pub fits : Fits room.client_map target runner
  pub room' : Room
  pub kept : room' ≡ record room { last_sync_runner_index = room'.last_sync_runner_index }
  pub returns :
      m
      ≡ ok (
        room',
        record hub {
          sent =
              hub.sent
              ++ ((
                fits.session,
                record { code = 7; to_id = runner; payload = str8 room.room_id ++ str8 target },
              )
                  ∷ []);
        },
      )

asking :
    (runner target : List ℕ) (room : Room) (hub : Hub)
    → IsShort room.room_id
    → IsShort target
    → runner ≢ []
    → (fits : Fits room.client_map target runner)
    → ask_runner runner target room hub
      ≡ ok (
        room,
        record hub {
          sent =
              hub.sent
              ++ ((
                fits.session,
                record { code = 7; to_id = runner; payload = str8 room.room_id ++ str8 target },
              )
                  ∷ []);
        },
      )
unfolding uni_cast write_to
asking [] target room hub hr ht some_id fits = absurd (some_id refl)
asking (x ∷ xs) target room hub hr ht some_id fits =
    rw (request_sync_lem room.room_id (x ∷ xs) target hr ht) (rw fits.member refl)

-- Where each key is in the map once, the ids are short and those of the others not empty, and the room
-- has another member than the one that wants a sync, exactly one request is written, to such another
-- member, and only the index of the runner changes in the room.
pub sync_start-IsAsked :
    (target : List ℕ) (room : Room) (hub : Hub)
    → IsMap room.client_map
    → ((id : List ℕ) → Fits room.client_map target id → id ≢ [])
    → IsShort room.room_id
    → IsShort target
    → (j : List ℕ) → Fits room.client_map target j
    → IsAsked target room hub (sync_start target room hub)
unfolding sync_start
sync_start-IsAsked target room hub h named hr ht j other =
    go (first_try 0 room.last_sync_runner_index target room.client_map []) (
      first_try_lem 0 room.last_sync_runner_index target room.client_map room.client_map [] h
        (inl refl))
  where
    second : Fits room.client_map target (second_try target room.client_map [])
    second =
        second_try_lem target room.client_map room.client_map [] h
          (inr (j, other.session, other.member, other.other))

    go :
        (runner : List ℕ)
        → (runner ≡ []) ⊎ Fits room.client_map target runner
        → IsAsked target room hub (tried runner target room hub)
    go [] r = record {
      runner = second_try target room.client_map [];
      fits = second;
      room' = room;
      kept = refl;
      returns =
          asking (second_try target room.client_map []) target room hub hr ht
            (named (second_try target room.client_map []) second) second;
    }
    go (x ∷ xs) (inl e) = cc
    go (x ∷ xs) (inr fits) =
        let next : ℕ = (room.last_sync_runner_index + 1) % length room.client_map in
        record {
          runner = x ∷ xs;
          fits = fits;
          room' = record room { last_sync_runner_index = next };
          kept = refl;
          returns =
              asking (x ∷ xs) target (record room { last_sync_runner_index = next }) hub hr ht
                (named (x ∷ xs) fits) fits;
        }
