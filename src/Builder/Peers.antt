-- ===== src/Builder/Peers.antt =====
-- SharedPainter/UdpPacketBuilder.h and SharedPainter/BroadCastPacketBuilder.h: how a painter is
-- found on the local network. A port is the 32-bit pattern of an int.
use shared_painter.Common.{ℕ, ◌%◌, ◌^◌, ◌≡◌, arith, true, List, [], Option, none, Outcome, ok}
use shared_painter.Wire.{
  Reader, write_int16, write_string8, read_int16, read_string8, ◌⨟◌, ◌>>=◌, done,
}
use shared_painter.Wire.Write.{Writes-seq, Writes-int16, Writes-string8}
use shared_painter.Wire.Read.{Reads-bind, Reads-map, Reads-string8}
use shared_painter.Wire.Bounds.{Stays, Stays-bind, Stays-map, Stays-int16, Stays-string8}
use shared_painter.Builder.{send, parse_with}
use shared_painter.Builder.Carries.{IsShort, Carries, send-Carries, parse_with-total, Reads-low16}

unfoldable pub make_server_info : List ℕ → List ℕ → ℕ → Outcome (List ℕ)
unfolding send ◌⨟◌ write_int16 write_string8
make_server_info paint_channel addr port =
    send 14 (write_string8 paint_channel ⨟ write_string8 addr ⨟ write_int16 port true) none none

abbrev read_server_info : Reader (List ℕ × List ℕ × ℕ)
read_server_info = do
  paint_channel ← read_string8
  addr ← read_string8
  port ← read_int16 true
  done (paint_channel, addr, port)

unfoldable pub parse_server_info : List ℕ → Outcome (Option (List ℕ × List ℕ × ℕ))
unfolding parse_with ◌>>=◌ done read_int16 read_string8
parse_server_info = parse_with read_server_info

unfoldable pub make_probe_server : List ℕ → List ℕ → ℕ → Outcome (List ℕ)
unfolding send ◌⨟◌ write_int16 write_string8
make_probe_server paint_channel addr port =
    send 15 (write_string8 paint_channel ⨟ write_string8 addr ⨟ write_int16 port true) none none

abbrev read_probe_server : Reader (List ℕ × List ℕ × ℕ)
read_probe_server = do
  paint_channel ← read_string8
  addr ← read_string8
  port ← read_int16 true
  done (paint_channel, addr, port)

unfoldable pub parse_probe_server : List ℕ → Outcome (Option (List ℕ × List ℕ × ℕ))
unfolding parse_with ◌>>=◌ done read_int16 read_string8
parse_probe_server = parse_with read_probe_server

unfoldable pub make_text_message : List ℕ → List ℕ → List ℕ → List ℕ → Outcome (List ℕ)
unfolding send ◌⨟◌ write_string8
make_text_message paint_channel my_id my_nick message =
    send 16
      (write_string8 paint_channel
        ⨟ write_string8 my_id
        ⨟ write_string8 my_nick
        ⨟ write_string8 message)
      none none

abbrev read_text_message : Reader (List ℕ × List ℕ × List ℕ × List ℕ)
read_text_message = do
  paint_channel ← read_string8
  my_id ← read_string8
  my_nick ← read_string8
  message ← read_string8
  done (paint_channel, my_id, my_nick, message)

unfoldable pub parse_text_message : List ℕ → Outcome (Option (List ℕ × List ℕ × List ℕ × List ℕ))
unfolding parse_with ◌>>=◌ done read_string8
parse_text_message = parse_with read_text_message

Stays-server_info : Stays read_server_info
Stays-server_info =
    Stays-bind
      (λ paint_channel. do
        addr ← read_string8
        port ← read_int16 true
        done (paint_channel, addr, port))
      Stays-string8
      (λ paint_channel.
        Stays-bind (λ addr. do port ← read_int16 true; done (paint_channel, addr, port))
          Stays-string8
          (λ addr. Stays-map (λ port. (paint_channel, addr, port)) (Stays-int16 true)))

Stays-probe_server : Stays read_probe_server
Stays-probe_server =
    Stays-bind
      (λ paint_channel. do
        addr ← read_string8
        port ← read_int16 true
        done (paint_channel, addr, port))
      Stays-string8
      (λ paint_channel.
        Stays-bind (λ addr. do port ← read_int16 true; done (paint_channel, addr, port))
          Stays-string8
          (λ addr. Stays-map (λ port. (paint_channel, addr, port)) (Stays-int16 true)))

Stays-text_message : Stays read_text_message
Stays-text_message =
    Stays-bind
      (λ paint_channel. do
        my_id ← read_string8
        my_nick ← read_string8
        message ← read_string8
        done (paint_channel, my_id, my_nick, message))
      Stays-string8
      (λ paint_channel.
        Stays-bind
          (λ my_id. do
            my_nick ← read_string8
            message ← read_string8
            done (paint_channel, my_id, my_nick, message))
          Stays-string8
          (λ my_id.
            Stays-bind
              (λ my_nick. do message ← read_string8; done (paint_channel, my_id, my_nick, message))
              Stays-string8
              (λ my_nick.
                Stays-map (λ message. (paint_channel, my_id, my_nick, message)) Stays-string8)))

-- A server that is announced over UDP is found as it was sent, its port modulo 2 ^ 16.
server_info-Carries :
    (paint_channel : List ℕ) (addr : List ℕ) (port : ℕ)
    → IsShort paint_channel
    → IsShort addr
    → Carries
        (make_server_info paint_channel addr port)
        14
        []
        []
        parse_server_info
        (paint_channel, addr, port % 2 ^ 16)
unfolding make_server_info parse_server_info
server_info-Carries paint_channel addr port h_paint_channel h_addr =
    send-Carries 14 none none (omega arith) (omega arith)
      (Writes-seq (Writes-string8 paint_channel h_paint_channel)
        (Writes-seq (Writes-string8 addr h_addr) (Writes-int16 port true)))
      (Reads-bind (λ x. do y0 ← read_string8; y1 ← read_int16 true; done (x, y0, y1))
        (Reads-string8 paint_channel h_paint_channel)
        (Reads-bind (λ x. do y0 ← read_int16 true; done (paint_channel, x, y0))
          (Reads-string8 addr h_addr)
          (Reads-map (λ x. (paint_channel, addr, x)) (Reads-low16 port))))

-- A broadcast probe is found as it was sent, its port modulo 2 ^ 16.
probe_server-Carries :
    (paint_channel : List ℕ) (addr : List ℕ) (port : ℕ)
    → IsShort paint_channel
    → IsShort addr
    → Carries
        (make_probe_server paint_channel addr port)
        15
        []
        []
        parse_probe_server
        (paint_channel, addr, port % 2 ^ 16)
unfolding make_probe_server parse_probe_server
probe_server-Carries paint_channel addr port h_paint_channel h_addr =
    send-Carries 15 none none (omega arith) (omega arith)
      (Writes-seq (Writes-string8 paint_channel h_paint_channel)
        (Writes-seq (Writes-string8 addr h_addr) (Writes-int16 port true)))
      (Reads-bind (λ x. do y0 ← read_string8; y1 ← read_int16 true; done (x, y0, y1))
        (Reads-string8 paint_channel h_paint_channel)
        (Reads-bind (λ x. do y0 ← read_int16 true; done (paint_channel, x, y0))
          (Reads-string8 addr h_addr)
          (Reads-map (λ x. (paint_channel, addr, x)) (Reads-low16 port))))

-- A broadcast message of short texts comes back as it was sent.
text_message-Carries :
    (paint_channel : List ℕ) (my_id : List ℕ) (my_nick : List ℕ) (message : List ℕ)
    → IsShort paint_channel
    → IsShort my_id
    → IsShort my_nick
    → IsShort message
    → Carries
        (make_text_message paint_channel my_id my_nick message)
        16
        []
        []
        parse_text_message
        (paint_channel, my_id, my_nick, message)
unfolding make_text_message parse_text_message
text_message-Carries paint_channel my_id my_nick message h_paint_channel h_my_id h_my_nick
      h_message =
    send-Carries 16 none none (omega arith) (omega arith)
      (Writes-seq (Writes-string8 paint_channel h_paint_channel) (
        Writes-seq (Writes-string8 my_id h_my_id)
          (Writes-seq (Writes-string8 my_nick h_my_nick) (Writes-string8 message h_message))))
      (Reads-bind
        (λ x. do y0 ← read_string8; y1 ← read_string8; y2 ← read_string8; done (x, y0, y1, y2))
        (Reads-string8 paint_channel h_paint_channel)
        (Reads-bind (λ x. do y0 ← read_string8; y1 ← read_string8; done (paint_channel, x, y0, y1))
          (Reads-string8 my_id h_my_id)
          (Reads-bind (λ x. do y0 ← read_string8; done (paint_channel, my_id, x, y0))
            (Reads-string8 my_nick h_my_nick)
            (Reads-map (λ x. (paint_channel, my_id, my_nick, x))
              (Reads-string8 message h_message)))))

-- What is announced over UDP and by broadcast, and a broadcast message, come back as they were sent,
-- ports modulo 2 ^ 16.
pub peers-Carries :
    (paint_channel addr : List ℕ) (port : ℕ) (my_id my_nick message : List ℕ)
    → IsShort paint_channel
    → IsShort addr
    → IsShort my_id
    → IsShort my_nick
    → IsShort message
    → Carries
        (make_server_info paint_channel addr port)
        14
        []
        []
        parse_server_info
        (paint_channel, addr, port % 2 ^ 16)
      × Carries
          (make_probe_server paint_channel addr port)
          15
          []
          []
          parse_probe_server
          (paint_channel, addr, port % 2 ^ 16)
      × Carries
          (make_text_message paint_channel my_id my_nick message)
          16
          []
          []
          parse_text_message
          (paint_channel, my_id, my_nick, message)
peers-Carries paint_channel addr port my_id my_nick message hc ha hi hn hm = (
  server_info-Carries paint_channel addr port hc ha,
  probe_server-Carries paint_channel addr port hc ha,
  text_message-Carries paint_channel my_id my_nick message hc hi hn hm,
)

-- On any bytes the three parses return, with the fields or with false.
pub peers-total :
    (body : List ℕ)
    → ((a : Option (List ℕ × List ℕ × ℕ)) × (parse_server_info body ≡ ok a))
      × ((a : Option (List ℕ × List ℕ × ℕ)) × (parse_probe_server body ≡ ok a))
      × ((a : Option (List ℕ × List ℕ × List ℕ × List ℕ)) × (parse_text_message body ≡ ok a))
unfolding parse_server_info parse_probe_server parse_text_message
peers-total body = (
  parse_with-total Stays-server_info body,
  parse_with-total Stays-probe_server body,
  parse_with-total Stays-text_message body,
)
