-- ===== src/Server/Messages.antt =====
-- SharedPaintServer/SystemPacketBuilder.h: the messages that the server makes. A SharedPaintProtocol
-- is its code, its receiver and its payload; how the coconut library writes it is not modelled.
use shared_painter.Common.{ℕ, Bool, List, [], Option, Outcome, ok, and_then, attempt}
use shared_painter.Wire.{write_string8, write_binary, ◌⨟◌, emit}
use shared_painter.Builder.{write_flag}
use shared_painter.Server.{Member, serialize_member}

pub record Protocol : Type 0 where
  pub code : ℕ
  pub to_id : List ℕ
  pub payload : List ℕ

-- A protocol, or a null pointer after an exception.
unfoldable pub protocol : ℕ → List ℕ → Outcome (List ℕ) → Outcome (Option Protocol)
protocol code to_id made =
    attempt (and_then made (λ body. ok (record { code = code; to_id = to_id; payload = body })))

unfoldable pub change_super_peer : List ℕ → Outcome (Option Protocol)
change_super_peer user_id = protocol 6 [] (emit (write_string8 user_id))

unfoldable pub request_sync : List ℕ → List ℕ → List ℕ → Outcome (Option Protocol)
request_sync channel runner target =
    protocol 7 runner (emit (write_string8 channel ⨟ write_string8 target))

-- `superPeerSession ? superPeerSession->user()->userId() : ""` is the last argument.
unfoldable pub response_join : List ℕ → Bool → List ℕ → List ℕ → Outcome (Option Protocol)
response_join channel first_flag joiner_list super_peer_id = protocol 2 [] (
    emit (
      write_string8 channel
      ⨟ write_flag first_flag
      ⨟ write_binary joiner_list
      ⨟ write_string8 super_peer_id))

unfoldable pub new_joiner : Member → Outcome (Option Protocol)
new_joiner member = protocol 0 [] (serialize_member member)

unfoldable pub left_user : List ℕ → List ℕ → Outcome (Option Protocol)
left_user channel user_id = protocol 3 [] (emit (write_string8 channel ⨟ write_string8 user_id))
