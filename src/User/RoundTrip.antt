-- ===== src/User/RoundTrip.antt =====
-- PaintUser.h: serialize and deserialize.
use shared_painter.Common.{
  ℕ, zero, suc, ◌≤◌, ◌<◌, ◌^◌, ◌≡◌, refl, sym, ap, ◌∙◌, arith, Bool, true, false, if◌then◌else◌,
  List, [], ◌∷◌, ◌++◌, append_assoc, append-nil, length, some, Outcome, ok, throw, fault, All, map,
}
use shared_painter.Wire.{◌>>=◌, done}
use shared_painter.Wire.Bytes.{word_bytes}
use shared_painter.Wire.Write.{str8, emit_lem, Writes-seq, Writes-string8, Writes-int16}
use shared_painter.Wire.Read.{Reads, Reads-int16, Reads-bind, Reads-map, Reads-done}
use shared_painter.Wire.Bounds.{Stays, Stays-int16, Stays-bind, Stays-map, Stays-done, Within}
use shared_painter.Wire.Fill.{
  Fills, Fills-fill, Fills-string8, Fills-seq, Keeps, Keeps-fill, Keeps-string8, Keeps-seq,
  FillsWithin, settle,
}
use shared_painter.Builder.Carries.{IsShort, Writes-flag, Reads-flag, Stays-flag}
use shared_painter.User.{
  User, new_user, serialize, fill_user, deserialize, read_user, read_users, append_users, whatever,
}

abbrev pub byte_of : Bool → List ℕ
byte_of f = word_bytes 1 true (if f then 1 else 0)

-- The bytes of a user.
abbrev pub user_bytes : User → List ℕ
user_bytes u =
    str8 u.channel
    ++ (str8 u.user_id
        ++ (str8 u.nick_name
            ++ (str8 u.view_ip
                ++ (str8 u.local_ip
                    ++ (word_bytes 2 true u.listen_tcp_port
                        ++ (byte_of u.super_peer_candidate
                            ++ (byte_of u.screen_recording
                                ++ byte_of u.screen_streaming_receiver)))))))

-- A user whose texts fit their length bytes, and whose port is a 16-bit word.
pub record IsWritable (u : User) : Type 0 where
  pub channel_short : IsShort u.channel
  pub user_id_short : IsShort u.user_id
  pub nick_name_short : IsShort u.nick_name
  pub view_ip_short : IsShort u.view_ip
  pub local_ip_short : IsShort u.local_ip
  pub port_fits : u.listen_tcp_port < 2 ^ 16

pub serialize_lem : (u : User) → IsWritable u → serialize u ≡ ok (user_bytes u)
unfolding serialize
serialize_lem u h = emit_lem (
    Writes-seq (Writes-string8 u.channel h.channel_short) (
      Writes-seq (Writes-string8 u.user_id h.user_id_short) (
        Writes-seq (Writes-string8 u.nick_name h.nick_name_short) (
          Writes-seq (Writes-string8 u.view_ip h.view_ip_short) (
            Writes-seq (Writes-string8 u.local_ip h.local_ip_short) (
              Writes-seq (Writes-int16 u.listen_tcp_port true) (
                Writes-seq (Writes-flag u.super_peer_candidate) (
                  Writes-seq (Writes-flag u.screen_recording)
                    (Writes-flag u.screen_streaming_receiver)))))))))

-- What arrives of a user: `screenStreaming` is not sent, and keeps the value of the object.
abbrev pub received_as : User → User → User
received_as old u = record u { screen_streaming = old.screen_streaming }

Fills-user : (old u : User) → IsWritable u → Fills fill_user old (received_as old u) (user_bytes u)
unfolding fill_user
Fills-user old u h = Fills-seq (Fills-string8 _ _ u.channel h.channel_short) (
    Fills-seq (Fills-string8 _ _ u.user_id h.user_id_short) (
      Fills-seq (Fills-string8 _ _ u.nick_name h.nick_name_short) (
        Fills-seq (Fills-string8 _ _ u.view_ip h.view_ip_short) (
          Fills-seq (Fills-string8 _ _ u.local_ip h.local_ip_short) (
            Fills-seq (Fills-fill _ _ (Reads-int16 u.listen_tcp_port true h.port_fits)) (
              Fills-seq (Fills-fill _ _ (Reads-flag u.super_peer_candidate)) (
                Fills-seq (Fills-fill _ _ (Reads-flag u.screen_recording))
                  (Fills-fill _ _ (Reads-flag u.screen_streaming_receiver)))))))))

-- A user that fits the format is serialized, and wherever its bytes stand in a string the call
-- that deserializes them returns true, moves the position behind them and gives the same user but
-- for `screenStreaming`, which is not sent and keeps the value that the object had.
pub deserialize-serialize :
    (old u : User) (pre post : List ℕ)
    → IsWritable u
    → (bs : List ℕ) × (serialize u ≡ ok bs)
      × (deserialize old (pre ++ (bs ++ post)) (length pre)
          ≡ ok (record u { screen_streaming = old.screen_streaming }, some (length bs)))
unfolding deserialize
deserialize-serialize old u pre post h =
    (user_bytes u, serialize_lem u h, rw ((Fills-user old u h).found pre post) refl)

Keeps-user : Keeps fill_user
unfolding fill_user
Keeps-user = Keeps-seq (Keeps-string8 _) (
    Keeps-seq (Keeps-string8 _) (
      Keeps-seq (Keeps-string8 _) (
        Keeps-seq (Keeps-string8 _) (
          Keeps-seq (Keeps-string8 _) (
            Keeps-seq (Keeps-fill _ (Stays-int16 true)) (
              Keeps-seq (Keeps-fill _ Stays-flag)
                (Keeps-seq (Keeps-fill _ Stays-flag) (Keeps-fill _ Stays-flag))))))))

settled :
    (size pos : ℕ) (m : User × Outcome ℕ)
    → pos ≤ size
    → FillsWithin size pos m.1
    → Within size pos (whatever (settle m))
settled size pos (u, ok n) h w = w
settled size pos (u, throw e) h w = omega arith
settled size pos (u, fault) h w = w

pub Stays-user : Stays read_user
unfolding read_user deserialize
Stays-user = record {
  stays = λ buf pos h.
      settled (length buf) pos (fill_user new_user buf pos) h (Keeps-user.keeps new_user buf pos h);
}

settled-returns :
    (size pos : ℕ) (m : User × Outcome ℕ)
    → FillsWithin size pos m.1
    → (p : User × ℕ) × (whatever (settle m) ≡ ok p)
settled-returns size pos (u, ok n) w = ((u, n), refl)
settled-returns size pos (u, throw e) w = ((u, 0), refl)
settled-returns size pos (u, fault) w = absurd w

-- A user is listed whatever stands at the position.
pub read_user-returns :
    (buf : List ℕ) (pos : ℕ) → pos ≤ length buf → (p : User × ℕ) × (read_user buf pos ≡ ok p)
unfolding read_user deserialize
read_user-returns buf pos h =
    settled-returns (length buf) pos (fill_user new_user buf pos)
      (Keeps-user.keeps new_user buf pos h)

pub Stays-users : (n : ℕ) → Stays (read_users n)
unfolding read_users
Stays-users zero = Stays-done []
Stays-users (suc n) =
    Stays-bind (λ u. do us ← read_users n; done (u ∷ us)) Stays-user
      (λ u. Stays-map (λ us. u ∷ us) (Stays-users n))

-- A user as a new object receives it.
abbrev pub as_new : User → User
as_new u = record u { screen_streaming = false }

pub Reads-user : (u : User) → IsWritable u → Reads read_user (as_new u) (user_bytes u)
unfolding read_user deserialize new_user
Reads-user u h = record { finds = λ pre post. rw ((Fills-user new_user u h).found pre post) refl }

abbrev pub users_bytes : List User → List ℕ
users_bytes [] = []
users_bytes (u ∷ us) = user_bytes u ++ users_bytes us

pub Reads-users :
    (us : List User)
    → All IsWritable us
    → Reads (read_users (length us)) (map as_new us) (users_bytes us)
unfolding read_users
Reads-users [] h = Reads-done []
Reads-users (u ∷ us) h =
    Reads-bind (λ v. do vs ← read_users (length us); done (v ∷ vs)) (Reads-user u h.0)
      (Reads-map (λ vs. as_new u ∷ vs) (Reads-users us h.1))

pub append_users_lem :
    (us : List User) (body : List ℕ)
    → All IsWritable us
    → append_users us body ≡ ok (body ++ users_bytes us)
unfolding append_users
append_users_lem [] body h = ap ok (sym (append-nil body))
append_users_lem (u ∷ us) body h = rw (serialize_lem u h.0) (
    append_users_lem us (body ++ user_bytes u) h.1
    ∙ ap ok (append_assoc body (user_bytes u) (users_bytes us)))
