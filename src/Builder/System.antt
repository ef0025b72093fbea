-- ===== src/Builder/System.antt =====
-- SharedPainter/SystemPacketBuilder.h: the messages of texts that name users, channels and versions.
use shared_painter.Common.{ℕ, ◌≡◌, arith, List, [], Option, none, Outcome, ok}
use shared_painter.Wire.{Reader, write_string8, read_string8, ◌⨟◌, ◌>>=◌, done}
use shared_painter.Wire.Write.{Writes-seq, Writes-string8}
use shared_painter.Wire.Read.{Reads-bind, Reads-map, Reads-string8}
use shared_painter.Wire.Bounds.{Stays, Stays-bind, Stays-map, Stays-string8}
use shared_painter.Builder.{send, parse_with}
use shared_painter.Builder.Carries.{IsShort, Carries, send-Carries, parse_with-total}

unfoldable pub make_chat_message : List ℕ → List ℕ → List ℕ → Outcome (List ℕ)
unfolding send ◌⨟◌ write_string8
make_chat_message id nick msg =
    send 12 (write_string8 id ⨟ write_string8 nick ⨟ write_string8 msg) none none

abbrev read_chat_message : Reader (List ℕ × List ℕ × List ℕ)
read_chat_message = do
  id ← read_string8
  nick ← read_string8
  msg ← read_string8
  done (id, nick, msg)

unfoldable pub parse_chat_message : List ℕ → Outcome (Option (List ℕ × List ℕ × List ℕ))
unfolding parse_with ◌>>=◌ done read_string8
parse_chat_message = parse_with read_chat_message

unfoldable pub make_version_info : List ℕ → List ℕ → Outcome (List ℕ)
unfolding send ◌⨟◌ write_string8
make_version_info version prot_version =
    send 10 (write_string8 version ⨟ write_string8 prot_version) none none

abbrev read_version_info : Reader (List ℕ × List ℕ)
read_version_info = do
  version ← read_string8
  prot_version ← read_string8
  done (version, prot_version)

unfoldable pub parse_version_info : List ℕ → Outcome (Option (List ℕ × List ℕ))
unfolding parse_with ◌>>=◌ done read_string8
parse_version_info = parse_with read_version_info

unfoldable pub make_change_nick_name : List ℕ → List ℕ → Outcome (List ℕ)
unfolding send ◌⨟◌ write_string8
make_change_nick_name userid nick_name =
    send 11 (write_string8 userid ⨟ write_string8 nick_name) none none

abbrev read_change_nick_name : Reader (List ℕ × List ℕ)
read_change_nick_name = do userid ← read_string8; nick_name ← read_string8; done (userid, nick_name)

unfoldable pub parse_change_nick_name : List ℕ → Outcome (Option (List ℕ × List ℕ))
unfolding parse_with ◌>>=◌ done read_string8
parse_change_nick_name = parse_with read_change_nick_name

unfoldable pub make_left_user : List ℕ → List ℕ → Outcome (List ℕ)
unfolding send ◌⨟◌ write_string8
make_left_user channel user_id = send 3 (write_string8 channel ⨟ write_string8 user_id) none none

abbrev read_left_user : Reader (List ℕ × List ℕ)
read_left_user = do channel ← read_string8; user_id ← read_string8; done (channel, user_id)

unfoldable pub parse_left_user : List ℕ → Outcome (Option (List ℕ × List ℕ))
unfolding parse_with ◌>>=◌ done read_string8
parse_left_user = parse_with read_left_user

Stays-chat_message : Stays read_chat_message
Stays-chat_message =
    Stays-bind (λ id. do nick ← read_string8; msg ← read_string8; done (id, nick, msg))
      Stays-string8
      (λ id.
        Stays-bind (λ nick. do msg ← read_string8; done (id, nick, msg)) Stays-string8
          (λ nick. Stays-map (λ msg. (id, nick, msg)) Stays-string8))

Stays-version_info : Stays read_version_info
Stays-version_info =
    Stays-bind (λ version. do prot_version ← read_string8; done (version, prot_version))
      Stays-string8 (λ version. Stays-map (λ prot_version. (version, prot_version)) Stays-string8)

Stays-change_nick_name : Stays read_change_nick_name
Stays-change_nick_name =
    Stays-bind (λ userid. do nick_name ← read_string8; done (userid, nick_name)) Stays-string8
      (λ userid. Stays-map (λ nick_name. (userid, nick_name)) Stays-string8)

Stays-left_user : Stays read_left_user
Stays-left_user =
    Stays-bind (λ channel. do user_id ← read_string8; done (channel, user_id)) Stays-string8
      (λ channel. Stays-map (λ user_id. (channel, user_id)) Stays-string8)

-- A chat message of short texts comes back as it was sent.
pub chat_message-Carries :
    (id : List ℕ) (nick : List ℕ) (msg : List ℕ)
    → IsShort id
    → IsShort nick
    → IsShort msg
    → Carries (make_chat_message id nick msg) 12 [] [] parse_chat_message (id, nick, msg)
unfolding make_chat_message parse_chat_message
chat_message-Carries id nick msg h_id h_nick h_msg =
    send-Carries 12 none none (omega arith) (omega arith)
      (Writes-seq (Writes-string8 id h_id)
        (Writes-seq (Writes-string8 nick h_nick) (Writes-string8 msg h_msg)))
      (Reads-bind (λ x. do y0 ← read_string8; y1 ← read_string8; done (x, y0, y1))
        (Reads-string8 id h_id)
        (Reads-bind (λ x. do y0 ← read_string8; done (id, x, y0)) (Reads-string8 nick h_nick)
          (Reads-map (λ x. (id, nick, x)) (Reads-string8 msg h_msg))))

-- Both versions come back as they were sent.
pub version_info-Carries :
    (version : List ℕ) (prot_version : List ℕ)
    → IsShort version
    → IsShort prot_version
    → Carries
        (make_version_info version prot_version)
        10
        []
        []
        parse_version_info
        (version, prot_version)
unfolding make_version_info parse_version_info
version_info-Carries version prot_version h_version h_prot_version =
    send-Carries 10 none none (omega arith) (omega arith)
      (Writes-seq (Writes-string8 version h_version) (Writes-string8 prot_version h_prot_version))
      (Reads-bind (λ x. do y0 ← read_string8; done (x, y0)) (Reads-string8 version h_version)
        (Reads-map (λ x. (version, x)) (Reads-string8 prot_version h_prot_version)))

-- The user and the new nick name come back as they were sent.
pub change_nick_name-Carries :
    (userid : List ℕ) (nick_name : List ℕ)
    → IsShort userid
    → IsShort nick_name
    → Carries
        (make_change_nick_name userid nick_name)
        11
        []
        []
        parse_change_nick_name
        (userid, nick_name)
unfolding make_change_nick_name parse_change_nick_name
change_nick_name-Carries userid nick_name h_userid h_nick_name =
    send-Carries 11 none none (omega arith) (omega arith)
      (Writes-seq (Writes-string8 userid h_userid) (Writes-string8 nick_name h_nick_name))
      (Reads-bind (λ x. do y0 ← read_string8; done (x, y0)) (Reads-string8 userid h_userid)
        (Reads-map (λ x. (userid, x)) (Reads-string8 nick_name h_nick_name)))

-- The channel and the user who left it come back as they were sent.
pub left_user-Carries :
    (channel : List ℕ) (user_id : List ℕ)
    → IsShort channel
    → IsShort user_id
    → Carries (make_left_user channel user_id) 3 [] [] parse_left_user (channel, user_id)
unfolding make_left_user parse_left_user
left_user-Carries channel user_id h_channel h_user_id =
    send-Carries 3 none none (omega arith) (omega arith)
      (Writes-seq (Writes-string8 channel h_channel) (Writes-string8 user_id h_user_id))
      (Reads-bind (λ x. do y0 ← read_string8; done (x, y0)) (Reads-string8 channel h_channel)
        (Reads-map (λ x. (channel, x)) (Reads-string8 user_id h_user_id)))

-- On any bytes the four parses return, with the fields or with false.
pub system-total :
    (body : List ℕ)
    → ((a : Option (List ℕ × List ℕ × List ℕ)) × (parse_chat_message body ≡ ok a))
      × ((a : Option (List ℕ × List ℕ)) × (parse_version_info body ≡ ok a))
      × ((a : Option (List ℕ × List ℕ)) × (parse_change_nick_name body ≡ ok a))
      × ((a : Option (List ℕ × List ℕ)) × (parse_left_user body ≡ ok a))
unfolding parse_chat_message parse_version_info parse_change_nick_name parse_left_user
system-total body = (
  parse_with-total Stays-chat_message body,
  parse_with-total Stays-version_info body,
  parse_with-total Stays-change_nick_name body,
  parse_with-total Stays-left_user body,
)
