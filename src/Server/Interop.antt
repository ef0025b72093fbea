-- ===== src/Server/Interop.antt =====
-- What the server makes of a painter's user, and a painter of the server's.
use shared_painter.Common.{
  ℕ, ◌+◌, ◌<◌, ◌^◌, ◌%◌, ◌≡◌, refl, sym, ap, subst, ◌∙◌, arith, Bool, true, List, [], ◌∷◌, ◌++◌,
  append_assoc, length, length-append, some, ok, ◌==◌, if◌then◌else◌,
}
use shared_painter.Wire.Bytes.{word_bytes, le_bytes, length-word_bytes}
use shared_painter.Wire.Write.{str8, emit_lem, Writes-seq, Writes-string8, Writes-int16}
use shared_painter.Wire.Read.{Reads, Reads-int8, Reads-int16, Reads-map}
use shared_painter.Wire.Fill.{Fills, Fills-fill, Fills-string8, Fills-seq, settle}
use shared_painter.Builder.{read_flag}
use shared_painter.Builder.Carries.{IsShort, Writes-flag, Reads-flag}
use shared_painter.User.{User, serialize, deserialize, fill_user}
use shared_painter.User.RoundTrip.{IsWritable, serialize_lem, user_bytes, byte_of}
use shared_painter.Server.{Member, serialize_member, deserialize_member, fill_member}

-- The fields that both know, up to the candidate's flag.
abbrev shared_bytes : List ℕ → List ℕ → List ℕ → List ℕ → List ℕ → ℕ → Bool → List ℕ → List ℕ
shared_bytes room id nick view local port candidate rest =
    str8 room
    ++ (str8 id
        ++ (str8 nick
            ++ (str8 view
                ++ (str8 local ++ (word_bytes 2 true port ++ (byte_of candidate ++ rest))))))

abbrev pub member_bytes : Member → List ℕ
member_bytes m =
    str8 m.room_id
    ++ (str8 m.user_id
        ++ (str8 m.nick_name
            ++ (str8 m.view_ip
                ++ (str8 m.local_ip
                    ++ (word_bytes 2 true m.listen_tcp_port ++ byte_of m.super_peer_candidate)))))

-- What the server knows of a painter's user.
abbrev pub member_of : Member → User → Member
member_of old u = record old {
  room_id = u.channel;
  user_id = u.user_id;
  nick_name = u.nick_name;
  view_ip = u.view_ip;
  local_ip = u.local_ip;
  listen_tcp_port = u.listen_tcp_port;
  super_peer_candidate = u.super_peer_candidate;
}

Fills-member :
    (old : Member) (u : User)
    → IsWritable u
    → Fills fill_member old (member_of old u) (member_bytes (member_of old u))
unfolding fill_member
Fills-member old u h = Fills-seq (Fills-string8 _ _ u.channel h.channel_short) (
    Fills-seq (Fills-string8 _ _ u.user_id h.user_id_short) (
      Fills-seq (Fills-string8 _ _ u.nick_name h.nick_name_short) (
        Fills-seq (Fills-string8 _ _ u.view_ip h.view_ip_short) (
          Fills-seq (Fills-string8 _ _ u.local_ip h.local_ip_short) (
            Fills-seq (Fills-fill _ _ (Reads-int16 u.listen_tcp_port true h.port_fits))
              (Fills-fill _ _ (Reads-flag u.super_peer_candidate)))))))

split_user :
    (old : Member) (u : User)
    → user_bytes u
      ≡ member_bytes (member_of old u)
        ++ (byte_of u.screen_recording ++ byte_of u.screen_streaming_receiver)
split_user old u = simp append_assoc

-- The server reads from a joining painter's message every field that it keeps, and leaves the two
-- bytes of the screen flags unread.
pub deserialize_member-serialize :
    (old : Member) (u : User)
    → IsWritable u
    → (bs : List ℕ) × (n : ℕ) × (serialize u ≡ ok bs)
      × (deserialize_member old bs 0 ≡ ok (member_of old u, some n))
      × (n + 2 ≡ length bs)
unfolding deserialize_member
deserialize_member-serialize old u h = (
  user_bytes u,
  length (member_bytes (member_of old u)),
  serialize_lem u h,
  rw (split_user old u, (Fills-member old u h).found [] flags) refl,
  omega (
    arith,
    ap length (split_user old u),
    length-append (member_bytes (member_of old u)) flags,
    length-append (byte_of u.screen_recording) (byte_of u.screen_streaming_receiver),
    length-word_bytes 1 true (if u.screen_recording then 1 else 0),
    length-word_bytes 1 true (if u.screen_streaming_receiver then 1 else 0),
  ),
)
  where
    flags : List ℕ
    flags = byte_of u.screen_recording ++ byte_of u.screen_streaming_receiver

-- A member whose texts fit their length bytes, and whose port is a 16-bit word.
pub record IsSent (m : Member) : Type 0 where
  pub room_id_short : IsShort m.room_id
  pub user_id_short : IsShort m.user_id
  pub nick_name_short : IsShort m.nick_name
  pub view_ip_short : IsShort m.view_ip
  pub local_ip_short : IsShort m.local_ip
  pub port_fits : m.listen_tcp_port < 2 ^ 16

-- The user that a painter takes from a member's bytes and the two bytes behind them.
abbrev pub user_of : User → Member → ℕ → ℕ → User
user_of old m b c = record old {
  channel = m.room_id;
  user_id = m.user_id;
  nick_name = m.nick_name;
  view_ip = m.view_ip;
  local_ip = m.local_ip;
  listen_tcp_port = m.listen_tcp_port;
  super_peer_candidate = m.super_peer_candidate;
  screen_recording = b == 1;
  screen_streaming_receiver = c == 1;
}

pub serialize_member_lem : (m : Member) → IsSent m → serialize_member m ≡ ok (member_bytes m)
unfolding serialize_member
serialize_member_lem m h = emit_lem (
    Writes-seq (Writes-string8 m.room_id h.room_id_short) (
      Writes-seq (Writes-string8 m.user_id h.user_id_short) (
        Writes-seq (Writes-string8 m.nick_name h.nick_name_short) (
          Writes-seq (Writes-string8 m.view_ip h.view_ip_short) (
            Writes-seq (Writes-string8 m.local_ip h.local_ip_short) (
              Writes-seq (Writes-int16 m.listen_tcp_port true)
                (Writes-flag m.super_peer_candidate)))))))

Reads-byte : (b : ℕ) → b < 256 → Reads read_flag (b == 1) (b ∷ [])
unfolding read_flag word_bytes le_bytes
Reads-byte b h =
    subst (λ t. Reads read_flag (b == 1) (t ∷ [])) low (Reads-map (λ t. t == 1) (Reads-int8 b h))
  where
    low : b % 256 ≡ b
    low = omega arith

Fills-foreign :
    (old : User) (m : Member) (b c : ℕ)
    → IsSent m
    → b < 256
    → c < 256
    → Fills fill_user old (user_of old m b c) (
        shared_bytes m.room_id m.user_id m.nick_name m.view_ip m.local_ip m.listen_tcp_port
          m.super_peer_candidate
          ((b ∷ []) ++ (c ∷ [])))
unfolding fill_user
Fills-foreign old m b c h hb hc = Fills-seq (Fills-string8 _ _ m.room_id h.room_id_short) (
    Fills-seq (Fills-string8 _ _ m.user_id h.user_id_short) (
      Fills-seq (Fills-string8 _ _ m.nick_name h.nick_name_short) (
        Fills-seq (Fills-string8 _ _ m.view_ip h.view_ip_short) (
          Fills-seq (Fills-string8 _ _ m.local_ip h.local_ip_short) (
            Fills-seq (Fills-fill _ _ (Reads-int16 m.listen_tcp_port true h.port_fits)) (
              Fills-seq (Fills-fill _ _ (Reads-flag m.super_peer_candidate)) (
                Fills-seq (Fills-fill _ _ (Reads-byte b hb))
                  (Fills-fill _ _ (Reads-byte c hc)))))))))

foreign :
    (m : Member) (rest : List ℕ)
    → member_bytes m ++ rest
      ≡ shared_bytes m.room_id m.user_id m.nick_name m.view_ip m.local_ip m.listen_tcp_port
          m.super_peer_candidate rest
foreign m rest = simp append_assoc

-- A painter that reads a user whom the server wrote takes the two bytes behind it, which belong to
-- what follows in the message, as the screen flags, and goes on behind them.
pub deserialize-serialize_member :
    (old : User) (m : Member) (pre post : List ℕ) (b c : ℕ)
    → IsSent m
    → b < 256
    → c < 256
    → (bs : List ℕ) × (serialize_member m ≡ ok bs)
      × (deserialize old (pre ++ (bs ++ (b ∷ c ∷ post))) (length pre)
          ≡ ok (user_of old m b c, some (length bs + 2)))
unfolding deserialize
deserialize-serialize_member old m pre post b c h hb hc = (
  member_bytes m,
  serialize_member_lem m h,
  ap settle (
        subst (λ t. fill_user old (pre ++ t) (length pre) ≡ (user_of old m b c, ok (length taken)))
          (ap (λ t. t ++ post) (sym (foreign m ((b ∷ []) ++ (c ∷ []))))
            ∙ append_assoc (member_bytes m) (b ∷ c ∷ []) post)
          ((Fills-foreign old m b c h hb hc).found pre post))
      ∙ ap (λ n. ok (user_of old m b c, some n)) size,
)
  where
    taken : List ℕ
    taken =
        shared_bytes m.room_id m.user_id m.nick_name m.view_ip m.local_ip m.listen_tcp_port
          m.super_peer_candidate ((b ∷ []) ++ (c ∷ []))

    size : length taken ≡ length (member_bytes m) + 2
    size = ap length (sym (foreign m (b ∷ c ∷ []))) ∙ length-append (member_bytes m) (b ∷ c ∷ [])
