-- ===== src/Server/Clients/Nicknames.antt =====
-- SharedPaintClient.cpp: _handle_CODE_SYSTEM_CHANGE_NICKNAME.
use shared_painter.Common.{
  ℕ, ◌≡◌, refl, ◌∙◌, Bool, true, false, List, [], ◌∷◌, Option, none, some, ok, Map, All, All-map,
  ◌==◌, ==_iff, if◌then◌else◌,
}
use shared_painter.Builder.Carries.{IsShort}
use shared_painter.Wire.Fill.{settle}
use shared_painter.Server.Interop.{IsSent}
use shared_painter.Server.Messages.{Protocol}
use shared_painter.Server.Rooms.{Session, Room, user_of, set_session}
use shared_painter.Server.Rooms.Elections.{is_candidate}
use shared_painter.Server.Rooms.Arrivals.{SameFace, faces-IsKeyed}
use shared_painter.Server.Clients.{
  Server, find_user, fill_nick_name, rename, handle_change_nick_name, relay, with_user,
}
use shared_painter.Server.Clients.Hosting.{IsHosted, IsServed, Serves}
use shared_painter.Server.Clients.Casts.{relay-IsServed}

abbrev pub named_as : List ℕ → ℕ → Server → Server
named_as nick_name d srv = with_user d (λ m. record m { nick_name = nick_name }) srv

-- A nick name is nothing that the rooms go by.
kept_fields :
    (nick_name : List ℕ) (d e : ℕ) (srv : Server)
    → IsShort nick_name
    → (((user_of e (named_as nick_name d srv).hub).room_id ≡ (user_of e srv.hub).room_id)
        × ((user_of e (named_as nick_name d srv).hub).user_id ≡ (user_of e srv.hub).user_id)
        × (is_candidate (named_as nick_name d srv).hub.sessions e ≡ is_candidate srv.hub.sessions e)
        × (IsSent (user_of e srv.hub) → IsSent (user_of e (named_as nick_name d srv).hub)))
unfolding set_session
kept_fields nick_name d e srv short = go (e == d) refl
  where
    renewed : Session
    renewed = record (srv.hub.sessions d) {
      user = record (user_of d srv.hub) { nick_name = nick_name };
    }

    go :
        (b : Bool)
        → (e == d) ≡ b
        → (((if b then renewed else srv.hub.sessions e).user.room_id ≡ (user_of e srv.hub).room_id)
            × ((if b then renewed else srv.hub.sessions e).user.user_id
                ≡ (user_of e srv.hub).user_id)
            × ((if b then renewed else srv.hub.sessions e).user.super_peer_candidate
                ≡ is_candidate srv.hub.sessions e)
            × (IsSent (user_of e srv.hub)
                → IsSent (if b then renewed else srv.hub.sessions e).user))
    go true same = rw ((==_iff e d).0 same) (
      refl,
      refl,
      refl,
      λ h. record {
        room_id_short = h.room_id_short;
        user_id_short = h.user_id_short;
        nick_name_short = short;
        view_ip_short = h.view_ip_short;
        local_ip_short = h.local_ip_short;
        port_fits = h.port_fits;
      },
    )
    go false other = (refl, refl, refl, λ h. h)

named_as-IsHosted :
    (nick_name : List ℕ) (d : ℕ) (id : List ℕ) (room : Room) (srv : Server)
    → IsShort nick_name
    → IsHosted id room srv.hub.sessions
    → IsHosted id room (named_as nick_name d srv).hub.sessions
named_as-IsHosted nick_name d id room srv short h = record {
  elected = record {
    sound = faces-IsKeyed room before after h.elected.sound (faces room.client_map);
    elected = λ n.
        All-map (λ e. is_candidate before e.1 ≡ false) (λ e. is_candidate after e.1 ≡ false)
          room.client_map (λ e p. (kept_fields nick_name d e.1 srv short).2 ∙ p)
          (h.elected.elected n);
  };
  named = h.named;
  housed =
      All-map (λ e. ((before e.1).user.room_id ≡ id) × IsSent (before e.1).user)
        (λ e. ((after e.1).user.room_id ≡ id) × IsSent (after e.1).user) room.client_map
        (λ e p. (
          (kept_fields nick_name d e.1 srv short).0 ∙ p.0,
          (kept_fields nick_name d e.1 srv short).3 p.1,
        ))
        h.housed;
}
  where
    before : ℕ → Session
    before = srv.hub.sessions

    after : ℕ → Session
    after = (named_as nick_name d srv).hub.sessions

    faces : (m : Map ℕ) → All (λ e. SameFace before after e.1) m
    faces [] = tt
    faces ((i, e) ∷ m) = (
      (
        (kept_fields nick_name d e srv short).1,
        λ fit. (kept_fields nick_name d e srv short).2 ∙ fit,
      ),
      faces m,
    )

named_as-IsServed :
    (nick_name : List ℕ) (d : ℕ) (srv : Server)
    → IsShort nick_name
    → IsServed srv
    → IsServed (named_as nick_name d srv)
named_as-IsServed nick_name d srv short h = record {
  mapped = h.mapped;
  hosted =
      All-map (λ e. IsHosted e.0 e.1 srv.hub.sessions)
        (λ e. IsHosted e.0 e.1 (named_as nick_name d srv).hub.sessions) srv.rooms
        (λ e k. named_as-IsHosted nick_name d e.0 e.1 srv short k) h.hosted;
}

-- A new nick name is that of the member with the id, and is relayed; without such a member nothing
-- happens.
pub handle_change_nick_name-IsServed :
    (c : ℕ) (prot : Protocol) (user_id nick_name : List ℕ) (r : Option ℕ) (srv : Server)
    → IsServed srv
    → settle (fill_nick_name ([], []) prot.payload 0) ≡ ok ((user_id, nick_name), r)
    → IsShort nick_name
    → Serves IsServed (handle_change_nick_name c prot srv)
unfolding handle_change_nick_name
handle_change_nick_name-IsServed c prot user_id nick_name r srv h parsed short =
    rw parsed (go (find_user (user_of c srv.hub).room_id user_id srv))
  where
    go : (o : Option ℕ) → Serves IsServed (rename o nick_name srv (relay c prot))
    go none = record { server = srv; returns = refl; holds = h }
    go (some d) =
        let relayed =
          relay-IsServed c prot (named_as nick_name d srv)
            (named_as-IsServed nick_name d srv short h) in
        record { server = relayed.server; returns = relayed.returns; holds = relayed.holds.0 }
