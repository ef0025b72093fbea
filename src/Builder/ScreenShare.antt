-- ===== src/Builder/ScreenShare.antt =====
-- SharedPainter/ScreenSharePacketBuilder.h: the messages about a shared screen.
use shared_painter.Common.{
  ℕ, ◌%◌, ◌^◌, ◌≡◌, arith, Bool, true, List, [], Option, none, some, Outcome, ok,
}
use shared_painter.Wire.{Reader, write_int16, read_int16, ◌⨟◌, ◌>>=◌, done}
use shared_painter.Wire.Write.{Writes-seq, Writes-int16}
use shared_painter.Wire.Read.{Reads-bind, Reads-map}
use shared_painter.Wire.Bounds.{Stays, Stays-bind, Stays-map, Stays-int16}
use shared_painter.Builder.{send, parse_with, write_flag, read_flag}
use shared_painter.Builder.Carries.{
  IsShort, Carries, send-Carries, parse_with-total, Reads-low16, Writes-flag, Reads-flag,
  Stays-flag,
}

unfoldable pub make_change_show_stream : List ℕ → Bool → Bool → Outcome (List ℕ)
unfolding send ◌⨟◌ write_flag
make_change_show_stream from_id sender_flag start_flag =
    send 29 (write_flag sender_flag ⨟ write_flag start_flag) (some from_id) none

abbrev read_change_show_stream : Reader (Bool × Bool)
read_change_show_stream = do
  sender_flag ← read_flag
  start_flag ← read_flag
  done (sender_flag, start_flag)

unfoldable pub parse_change_show_stream : List ℕ → Outcome (Option (Bool × Bool))
unfolding parse_with ◌>>=◌ done read_flag
parse_change_show_stream = parse_with read_change_show_stream

unfoldable pub make_res_show_stream : List ℕ → Bool → ℕ → Outcome (List ℕ)
unfolding send ◌⨟◌ write_flag write_int16
make_res_show_stream from_id accept listen_port =
    send 30 (write_flag accept ⨟ write_int16 listen_port true) (some from_id) none

abbrev read_res_show_stream : Reader (Bool × ℕ)
read_res_show_stream = do
  accept ← read_flag
  listen_port ← read_int16 true
  done (accept, listen_port)

unfoldable pub parse_res_show_stream : List ℕ → Outcome (Option (Bool × ℕ))
unfolding parse_with ◌>>=◌ done read_flag read_int16
parse_res_show_stream = parse_with read_res_show_stream

unfoldable pub make_change_record_status : List ℕ → Bool → Outcome (List ℕ)
unfolding send ◌⨟◌ write_flag
make_change_record_status from_id status = send 28 (write_flag status) (some from_id) none

abbrev read_change_record_status : Reader Bool
read_change_record_status = do status ← read_flag; done status

unfoldable pub parse_change_record_status : List ℕ → Outcome (Option Bool)
unfolding parse_with ◌>>=◌ done read_flag
parse_change_record_status = parse_with read_change_record_status

Stays-change_show_stream : Stays read_change_show_stream
Stays-change_show_stream =
    Stays-bind (λ sender_flag. do start_flag ← read_flag; done (sender_flag, start_flag)) Stays-flag
      (λ sender_flag. Stays-map (λ start_flag. (sender_flag, start_flag)) Stays-flag)

Stays-res_show_stream : Stays read_res_show_stream
Stays-res_show_stream =
    Stays-bind (λ accept. do listen_port ← read_int16 true; done (accept, listen_port)) Stays-flag
      (λ accept. Stays-map (λ listen_port. (accept, listen_port)) (Stays-int16 true))

Stays-change_record_status : Stays read_change_record_status
Stays-change_record_status = Stays-map (λ status. status) Stays-flag

-- Both flags come back, and the packet names its sender.
change_show_stream-Carries :
    (from_id : List ℕ) (sender_flag : Bool) (start_flag : Bool)
    → IsShort from_id
    → Carries
        (make_change_show_stream from_id sender_flag start_flag)
        29
        from_id
        []
        parse_change_show_stream
        (sender_flag, start_flag)
unfolding make_change_show_stream parse_change_show_stream
change_show_stream-Carries from_id sender_flag start_flag h_from =
    send-Carries 29 (some from_id) none h_from (omega arith)
      (Writes-seq (Writes-flag sender_flag) (Writes-flag start_flag))
      (Reads-bind (λ x. do y0 ← read_flag; done (x, y0)) (Reads-flag sender_flag)
        (Reads-map (λ x. (sender_flag, x)) (Reads-flag start_flag)))

-- The answer comes back with the port modulo 2 ^ 16, and the packet names its sender.
res_show_stream-Carries :
    (from_id : List ℕ) (accept : Bool) (listen_port : ℕ)
    → IsShort from_id
    → Carries
        (make_res_show_stream from_id accept listen_port)
        30
        from_id
        []
        parse_res_show_stream
        (accept, listen_port % 2 ^ 16)
unfolding make_res_show_stream parse_res_show_stream
res_show_stream-Carries from_id accept listen_port h_from =
    send-Carries 30 (some from_id) none h_from (omega arith)
      (Writes-seq (Writes-flag accept) (Writes-int16 listen_port true))
      (Reads-bind (λ x. do y0 ← read_int16 true; done (x, y0)) (Reads-flag accept)
        (Reads-map (λ x. (accept, x)) (Reads-low16 listen_port)))

-- The status comes back, and the packet names its sender.
change_record_status-Carries :
    (from_id : List ℕ) (status : Bool)
    → IsShort from_id
    → Carries
        (make_change_record_status from_id status)
        28
        from_id
        []
        parse_change_record_status
        status
unfolding make_change_record_status parse_change_record_status
change_record_status-Carries from_id status h_from =
    send-Carries 28 (some from_id) none h_from (omega arith) (Writes-flag status)
      (Reads-map (λ x. x) (Reads-flag status))

-- The flags, the answer and the status come back, the answer's port modulo 2 ^ 16, and each packet
-- names its sender.
pub screen_share-Carries :
    (from_id : List ℕ) (first second : Bool) (listen_port : ℕ)
    → IsShort from_id
    → Carries
        (make_change_show_stream from_id first second)
        29
        from_id
        []
        parse_change_show_stream
        (first, second)
      × Carries
          (make_res_show_stream from_id first listen_port)
          30
          from_id
          []
          parse_res_show_stream
          (first, listen_port % 2 ^ 16)
      × Carries
          (make_change_record_status from_id first)
          28
          from_id
          []
          parse_change_record_status
          first
screen_share-Carries from_id first second listen_port h = (
  change_show_stream-Carries from_id first second h,
  res_show_stream-Carries from_id first listen_port h,
  change_record_status-Carries from_id first h,
)

-- On any bytes the three parses return, with the fields or with false.
pub screen_share-total :
    (body : List ℕ)
    → ((a : Option (Bool × Bool)) × (parse_change_show_stream body ≡ ok a))
      × ((a : Option (Bool × ℕ)) × (parse_res_show_stream body ≡ ok a))
      × ((a : Option Bool) × (parse_change_record_status body ≡ ok a))
unfolding parse_change_show_stream parse_res_show_stream parse_change_record_status
screen_share-total body = (
  parse_with-total Stays-change_show_stream body,
  parse_with-total Stays-res_show_stream body,
  parse_with-total Stays-change_record_status body,
)
