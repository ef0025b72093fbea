-- ===== src/Examples/Messages.antt =====
-- The messages with concrete fields.
use shared_painter.Common.{
  ℕ, ◌≡◌, refl, arith, List, [], ◌∷◌, ◌++◌, length, ok, Option, some, none, true, false, map,
}
use shared_painter.Wire
use shared_painter.Wire.Bytes.{word_bytes, le_bytes}
use shared_painter.Slicer.{State, Slicer, new_slicer, receive_all}
use shared_painter.Slicer.Invariant.{IsOctet}
use shared_painter.Slicer.Stream.{flatten, reported, new_slicer-IsIdle}
use shared_painter.Builder.{frame, make_packet}
use shared_painter.Builder.Carries.{Carries}
use shared_painter.Builder.Delivery.{Call, make_all, asked, receive_all-make_packet}
use shared_painter.Builder.System
use shared_painter.Builder.Joins
use shared_painter.Builder.Window
use shared_painter.Builder.Peers
use shared_painter.Builder.ScreenShare
use shared_painter.User.{User, serialize, deserialize, new_user}
use shared_painter.User.RoundTrip.{IsWritable, deserialize-serialize, as_new}

abbrev name : List ℕ
name = 97 ∷ 98 ∷ []

abbrev word : List ℕ
word = 104 ∷ 105 ∷ []

abbrev painter : User
painter = record {
  channel = name;
  user_id = word;
  nick_name = [];
  listen_tcp_port = 4000;
  view_ip = [];
  local_ip = 49 ∷ [];
  super_peer_candidate = true;
  screen_recording = false;
  screen_streaming = true;
  screen_streaming_receiver = true;
}

painter-IsWritable : IsWritable painter
painter-IsWritable = record {
  channel_short = omega arith;
  user_id_short = omega arith;
  nick_name_short = omega arith;
  view_ip_short = omega arith;
  local_ip_short = omega arith;
  port_fits = omega arith;
}

deserialize-serialize_example :
    (bs : List ℕ) × (serialize painter ≡ ok bs)
    × (deserialize new_user (name ++ (bs ++ word)) 2
        ≡ ok (record painter { screen_streaming = new_user.screen_streaming }, some (length bs)))
deserialize-serialize_example = deserialize-serialize new_user painter name word painter-IsWritable

join-Carries_example :
    Carries
      (Joins.make_join_to_server painter)
      0
      []
      []
      Joins.parse_join_to_server
      (record painter { screen_streaming = false })
    × Carries
        (Joins.make_joiner_to_super_peer painter)
        1
        []
        []
        Joins.parse_joiner_to_super_peer
        (record painter { screen_streaming = false })
join-Carries_example = Joins.join-Carries painter painter-IsWritable

history_user_list-round_trip_example :
    (body : List ℕ) × (Joins.make_history_user_list (painter ∷ []) ≡ ok (frame 13 [] [] body))
    × (Joins.parse_history_user_list body ≡ ok (map as_new (painter ∷ [])))
history_user_list-round_trip_example =
    Joins.history_user_list-round_trip (painter ∷ []) (omega arith) (painter-IsWritable, tt)

signals-frame_example :
    (Joins.make_sync_request ≡ ok (frame 7 [] [] []))
    × (Joins.make_tcp_ack ≡ ok (frame 5 [] [] []))
    × (Joins.make_sync_complete name ≡ ok (frame 9 [] name []))
signals-frame_example = Joins.signals-frame name (omega arith)

joins-total_example :
    ((u : User) × (Joins.parse_join_to_server word ≡ ok (some u)))
    × ((u : User) × (Joins.parse_joiner_to_super_peer word ≡ ok (some u)))
    × ((a : Option (List ℕ)) × (Joins.parse_change_super_peer word ≡ ok a))
    × ((a : Option (List ℕ × List ℕ)) × (Joins.parse_sync_request word ≡ ok a))
    × ((a : Option (List ℕ)) × (Joins.parse_sync_start word ≡ ok a))
    × ((a : Option Joins.Joined) × (Joins.parse_response_join word ≡ ok a))
    × ((us : List User) × (Joins.parse_history_user_list word ≡ ok us))
joins-total_example = Joins.joins-total word

chat_message-Carries_example :
    Carries
      (System.make_chat_message name name word)
      12
      []
      []
      System.parse_chat_message
      (name, name, word)
chat_message-Carries_example =
    System.chat_message-Carries name name word (omega arith) (omega arith) (omega arith)

-- A version message, and a chat message to the painter `ab`.
abbrev two_calls : List Call
two_calls =
    record { code = 10; body = 0 ∷ 0 ∷ []; from_id = none; to_id = none }
    ∷ record { code = 12; body = []; from_id = none; to_id = some name }
    ∷ []

abbrev first_event : List ℕ
first_event = 0xbe ∷ []

abbrev second_event : List ℕ
second_event =
    0xbe ∷ 10 ∷ 0 ∷ 0 ∷ 0 ∷ 2 ∷ 0 ∷ 0 ∷ 0 ∷ 0 ∷ 0 ∷ 0xbe ∷ 0xbe ∷ 12 ∷ 0 ∷ 0 ∷ 2 ∷ 97 ∷ []

abbrev third_event : List ℕ
third_event = 98 ∷ 0 ∷ 0 ∷ 0 ∷ 0 ∷ []

two_calls-made : make_all two_calls ≡ ok (flatten (first_event ∷ second_event ∷ third_event ∷ []))
unfolding word_bytes le_bytes make_packet Wire.write_binary Wire.insert Wire.write_string8
    Wire.write_int16 Wire.write_int32 Wire.◌⨟◌
two_calls-made = refl

receive_all-make_packet_example :
    (w : Slicer) × (receive_all (first_event ∷ second_event ∷ third_event ∷ []) new_slicer
      ≡ some (reported new_slicer.curr_from_id new_slicer.curr_to_id (map asked two_calls), w))
    × (w.buffer.bytes ≡ [])
    × (w.state ≡ State.header_magic)
unfolding IsOctet
receive_all-make_packet_example =
    receive_all-make_packet two_calls first_event (second_event ∷ third_event ∷ []) new_slicer
      new_slicer-IsIdle
      (
        record { known = omega arith; body_fits = omega arith },
        (record { known = omega arith; body_fits = omega arith }, tt),
      )
      (omega arith, tt) (ground arith, (ground arith, tt)) two_calls-made

resize_window_splitter-Carries_example :
    Carries
      (Window.make_resize_window_splitter (10 ∷ 65537 ∷ []) none)
      26
      []
      []
      Window.parse_resize_window_splitter
      (10 ∷ 1 ∷ [])
resize_window_splitter-Carries_example =
    Window.resize_window_splitter-Carries (10 ∷ 65537 ∷ []) none (omega arith) (omega arith)

positions-Carries_example :
    Carries
      (Window.make_change_canvas_scroll_pos 3 65535 (some name))
      27
      []
      name
      Window.parse_change_canvas_scroll_pos
      (3, 65535)
    × Carries
        (Window.make_resize_canvas 640 70000 (some name))
        25
        []
        name
        Window.parse_resize_canvas
        (640, 4464)
    × Carries
        (Window.make_resize_main_window 640 70000 (some name))
        24
        []
        name
        Window.parse_resize_main_window
        (640, 4464)
positions-Carries_example =
    Window.positions-Carries 3 65535 640 70000 (some name) (omega arith) (omega arith) (omega arith)

screen_share-Carries_example :
    Carries
      (ScreenShare.make_change_show_stream name true false)
      29
      name
      []
      ScreenShare.parse_change_show_stream
      (true, false)
    × Carries
        (ScreenShare.make_res_show_stream name true 70000)
        30
        name
        []
        ScreenShare.parse_res_show_stream
        (true, 4464)
    × Carries
        (ScreenShare.make_change_record_status name true)
        28
        name
        []
        ScreenShare.parse_change_record_status
        true
screen_share-Carries_example = ScreenShare.screen_share-Carries name true false 70000 (omega arith)

peers-Carries_example :
    Carries
      (Peers.make_server_info name word 4000)
      14
      []
      []
      Peers.parse_server_info
      (name, word, 4000)
    × Carries
        (Peers.make_probe_server name word 4000)
        15
        []
        []
        Peers.parse_probe_server
        (name, word, 4000)
    × Carries
        (Peers.make_text_message name name [] word)
        16
        []
        []
        Peers.parse_text_message
        (name, name, [], word)
peers-Carries_example =
    Peers.peers-Carries name word 4000 name [] word (omega arith) (omega arith) (omega arith)
      (omega arith) (omega arith)
