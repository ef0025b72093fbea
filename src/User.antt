-- ===== src/User.antt =====
-- SharedPainter/PaintUser.h: what a painter tells the others of a user. The fields are those of
-- SPaintUserInfoData; the session's fields of CPaintUser are not sent.
pub mod RoundTrip
use shared_painter.Common.{
  ℕ, zero, suc, Bool, true, false, List, [], ◌∷◌, ◌++◌, Option, none, some, Outcome, ok, throw,
  fault, and_then,
}
use shared_painter.Wire.{Reader, write_string8, write_int16, read_int16, ◌⨟◌, ◌>>=◌, done, emit}
use shared_painter.Wire.Fill.{Filler, fill, fill_string8, ◌▷◌, settle}
use shared_painter.Builder.{write_flag, read_flag}

pub record User : Type 0 where
  pub channel : List ℕ
  pub user_id : List ℕ
  pub nick_name : List ℕ
  pub listen_tcp_port : ℕ
  pub view_ip : List ℕ
  pub local_ip : List ℕ
  pub super_peer_candidate : Bool
  pub screen_recording : Bool
  pub screen_streaming : Bool
  pub screen_streaming_receiver : Bool

unfoldable pub new_user : User
new_user = record {
  channel = [];
  user_id = [];
  nick_name = [];
  listen_tcp_port = 0;
  view_ip = [];
  local_ip = [];
  super_peer_candidate = false;
  screen_recording = false;
  screen_streaming = false;
  screen_streaming_receiver = false;
}

unfoldable pub serialize : User → Outcome (List ℕ)
unfolding ◌⨟◌ write_string8 write_int16 write_flag
serialize u = emit (
    write_string8 u.channel
    ⨟ write_string8 u.user_id
    ⨟ write_string8 u.nick_name
    ⨟ write_string8 u.view_ip
    ⨟ write_string8 u.local_ip
    ⨟ write_int16 u.listen_tcp_port true
    ⨟ write_flag u.super_peer_candidate
    ⨟ write_flag u.screen_recording
    ⨟ write_flag u.screen_streaming_receiver)

-- The fields in the order in which `deserialize` reads them.
unfoldable pub fill_user : Filler User
unfolding fill ◌▷◌ fill_string8 read_int16 read_flag
fill_user =
    fill_string8 (λ v u. record u { channel = v })
    ▷ fill_string8 (λ v u. record u { user_id = v })
    ▷ fill_string8 (λ v u. record u { nick_name = v })
    ▷ fill_string8 (λ v u. record u { view_ip = v })
    ▷ fill_string8 (λ v u. record u { local_ip = v })
    ▷ fill (read_int16 true) (λ v u. record u { listen_tcp_port = v })
    ▷ fill read_flag (λ v u. record u { super_peer_candidate = v })
    ▷ fill read_flag (λ v u. record u { screen_recording = v })
    ▷ fill read_flag (λ v u. record u { screen_streaming_receiver = v })

-- The user behind the call, and what it adds to `*readPos` if it returns true.
unfoldable pub deserialize : User → List ℕ → ℕ → Outcome (User × Option ℕ)
unfolding fill_user
deserialize u buf read_pos = settle (fill_user u buf read_pos)

-- A result that is not looked at: a user that fails is listed as far as it was read.
abbrev pub whatever : Outcome (User × Option ℕ) → Outcome (User × ℕ)
whatever (ok (u, some n)) = ok (u, n)
whatever (ok (u, none)) = ok (u, 0)
whatever (throw e) = throw e
whatever fault = fault

-- `user->deserialize( body, &pos ); list.push_back( user );`
unfoldable pub read_user : Reader User
unfolding deserialize new_user
read_user buf pos = whatever (deserialize new_user buf pos)

unfoldable pub read_users : ℕ → Reader (List User)
unfolding read_user ◌>>=◌ done
read_users zero = done []
read_users (suc n) = do u ← read_user; us ← read_users n; done (u ∷ us)

-- `for( … ) body += list[i]->serialize();`
unfoldable pub append_users : List User → List ℕ → Outcome (List ℕ)
unfolding serialize
append_users [] body = ok body
append_users (u ∷ us) body = and_then (serialize u) (λ s. append_users us (body ++ s))
