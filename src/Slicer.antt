-- ===== src/Slicer.antt =====
-- SharedPainter/PacketSlicer.h, class CPacketSlicer: cuts the bytes of a connection into packets.
-- MAX_PACKET_BODY_SIZE is that of SharedPaintPolicy.h, which every source file includes first.
pub mod Grow
pub mod Body
pub mod Resume
pub mod Invariant
pub mod Sound
pub mod Parse
pub mod Chunks
pub mod Frame
pub mod Stream
use shared_painter.Common.{
  ℕ, zero, suc, ◌+◌, ◌-◌, ◌*◌, ◌%◌, ◌^◌, Bool, true, false, not, List, [], ◌∷◌, ◌++◌, length, take,
  drop, get_elem?, Option, none, some, ltb, leb, ◌==◌, if◌then◌else◌, Outcome, ok, throw, fault,
  packet_error, out_of_range,
}
use shared_painter.Buffer
use shared_painter.Buffer.{Buffer, Method}

abbrev pub net_magic_code : ℕ
net_magic_code = 0xbebe

abbrev pub code_max : ℕ
code_max = 31

abbrev pub max_packet_body_size : ℕ
max_packet_body_size = 200_000_000

pub record Packet : Type 0 where
  pub code : ℕ
  pub from_id : List ℕ
  pub to_id : List ℕ
  pub body : List ℕ

pub data State : Type 0 where
  init header_magic header_code header_from_id header_to_id header_blen body : State

pub record Slicer : Type 0 where
  pub buffer : Buffer
  pub parsed_items : List Packet
  pub state : State
  pub curr_from_id_len : ℕ
  pub curr_to_id_len : ℕ
  pub curr_from_id : List ℕ
  pub curr_to_id : List ℕ
  pub curr_header_len : ℕ
  pub curr_code : ℕ
  pub curr_body_len : ℕ

-- How `doParse` ends: it returns true (`more`), or false for want of bytes (`wait`), behind a call
-- of `init` (`reject`) or from the handler (`caught`). The last two leave the function otherwise.
pub data Verdict : Type 0 where
  more wait reject caught uncaught broken : Verdict

abbrev pub Step : Type 0
Step = Verdict × Slicer

unfoldable pub initialize : Slicer → Slicer
unfolding Buffer.clear
initialize s = record s {
  buffer = Buffer.clear s.buffer;
  parsed_items = [];
  state = State.header_magic;
  curr_header_len = 0;
}

unfoldable pub add_buffer : List ℕ → Slicer → Slicer
unfolding Buffer.write
add_buffer bs s = record s { buffer = Buffer.write bs s.buffer }

-- What a method of the buffer leaves, inside the `try` of `doParse`.
abbrev pub received : {A : Type 0} → Outcome A × Buffer → Slicer → (A → Slicer → Step) → Step
received (ok a, b) s k = k a (record s { buffer = b })
received (throw packet_error, b) s k = (caught, record s { buffer = b })
received (throw out_of_range, b) s k = (uncaught, record s { buffer = b })
received (fault, b) s k = (broken, record s { buffer = b })

-- `currHeaderLen_ += n`, a 16-bit sum.
abbrev pub count_header : ℕ → Slicer → Slicer
count_header n s = record s { curr_header_len = (s.curr_header_len + n) % 2 ^ 16 }

-- `if( buffer_.remainingSize() < n ) return false; currHeaderLen_ += buffer_.m( … );`
unfoldable pub need : {A : Type 0} → ℕ → Method A → Slicer → (A → Slicer → Step) → Step
need n m s k =
    if ltb (Buffer.remaining_size s.buffer) n
    then (wait, s)
    else received (m s.buffer) s (λ a s'. k a (count_header n s'))

-- The fields that `_readString8` is given by reference.
pub data Side : Type 0 where
  from to : Side

abbrev pub id_len : Side → Slicer → ℕ
id_len from s = s.curr_from_id_len
id_len to s = s.curr_to_id_len

abbrev pub set_id_len : Side → ℕ → Slicer → Slicer
set_id_len from n s = record s { curr_from_id_len = n }
set_id_len to n s = record s { curr_to_id_len = n }

abbrev pub set_id : Side → List ℕ → Slicer → Slicer
set_id from id s = record s { curr_from_id = id }
set_id to id s = record s { curr_to_id = id }

-- The id's text was read: what follows runs with it.
abbrev pub with_id : Side → (Slicer → Step) → List ℕ → Slicer → Step
with_id side k id s = k (set_id side id s)

unfoldable pub read_id_text : Side → (Slicer → Step) → Slicer → Step
read_id_text side k s =
    if ltb 0 (id_len side s)
    then need (id_len side s) (Buffer.read (id_len side s)) s (with_id side k)
    else k s

abbrev pub with_id_len : Side → (Slicer → Step) → ℕ → Slicer → Step
with_id_len side k n s = read_id_text side k (set_id_len side n s)

-- `_readString8`, and what follows where it returns true.
unfoldable pub read_id : Side → (Slicer → Step) → Slicer → Step
read_id side k s =
    if ltb 0 (id_len side s)
    then read_id_text side k s
    else need 1 Buffer.read_int8 s (with_id_len side k)

-- `data->body.assign( basePtr + currHeaderLen_, currBodyLen_ )` and the packet that is filled.
abbrev pub current_packet : Slicer → Packet
current_packet s = record {
  code = s.curr_code;
  from_id = s.curr_from_id;
  to_id = s.curr_to_id;
  body = take s.curr_body_len (drop s.curr_header_len s.buffer.bytes);
}

unfoldable pub parse_body : Slicer → Step
parse_body s =
    if ltb (Buffer.remaining_size s.buffer) s.curr_body_len
    then (wait, s)
    else if ltb (length s.buffer.bytes) (s.curr_header_len + s.curr_body_len)
    then (broken, s)
    else received (Buffer.erase 0 ((s.curr_header_len + s.curr_body_len) % 2 ^ 32) s.buffer)
        (record s { parsed_items = s.parsed_items ++ (current_packet s ∷ []) })
        λ _ s'.
          received (Buffer.set_read_pos 0 s'.buffer) s'
            λ _ s''. (more, record s'' { curr_header_len = 0; state = State.header_magic })

abbrev pub with_blen : ℕ → Slicer → Step
with_blen n s =
    if ltb max_packet_body_size n
    then (reject, initialize (record s { curr_body_len = n }))
    else parse_body (record s { curr_body_len = n; state = State.body })

unfoldable pub parse_blen : Slicer → Step
parse_blen s = need 4 Buffer.read_int32 s with_blen

abbrev pub to_blen : Slicer → Step
to_blen s = parse_blen (record s { state = State.header_blen })

unfoldable pub parse_to_id : Slicer → Step
parse_to_id = read_id to to_blen

abbrev pub to_to_id : Slicer → Step
to_to_id s = parse_to_id (record s { state = State.header_to_id })

unfoldable pub parse_from_id : Slicer → Step
parse_from_id = read_id from to_to_id

abbrev pub with_code : ℕ → Slicer → Step
with_code n s =
    if leb code_max n
    then (reject, initialize (record s { curr_code = n }))
    else parse_from_id (record s { curr_code = n; state = State.header_from_id })

unfoldable pub parse_code : Slicer → Step
parse_code s = need 2 Buffer.read_int16 s with_code

abbrev pub start_header : Slicer → Slicer
start_header s = record s { curr_from_id_len = 0; curr_to_id_len = 0; curr_header_len = 0 }

abbrev pub with_magic : ℕ → Slicer → Step
with_magic n s =
    if n == net_magic_code
    then parse_code (record s { state = State.header_code })
    else (reject, initialize s)

unfoldable pub parse_magic : Slicer → Step
parse_magic s = need 2 Buffer.read_int16 (start_header s) with_magic

-- The `switch`, whose cases fall through.
unfoldable pub parse_from : State → Slicer → Step
parse_from State.init s = parse_magic (record (initialize s) { state = State.header_magic })
parse_from State.header_magic s = parse_magic s
parse_from State.header_code s = parse_code s
parse_from State.header_from_id s = parse_from_id s
parse_from State.header_to_id s = parse_to_id s
parse_from State.header_blen s = parse_blen s
parse_from State.body s = parse_body s

unfoldable pub do_parse : Slicer → Step
do_parse s = parse_from s.state s

-- The loop goes on after `return true` only.
abbrev pub unless_done : Step → (Slicer → Option Step) → Option Step
unless_done (more, s) again = again s
unless_done (wait, s) again = some (wait, s)
unless_done (reject, s) again = some (reject, s)
unless_done (caught, s) again = some (caught, s)
unless_done (uncaught, s) again = some (uncaught, s)
unless_done (broken, s) again = some (broken, s)

-- `while( 1 ) if( !doParse() ) break;` on fuel.
unfoldable pub parse_loop : ℕ → Slicer → Option Step
parse_loop zero s = none
parse_loop (suc fuel) s = unless_done (do_parse s) (parse_loop fuel)

-- Every round but the last takes a byte at least from the buffer.
unfoldable pub parse : Slicer → Option Step
parse s = parse_loop (suc (length s.buffer.bytes)) (record s { parsed_items = [] })

-- The bytes of one receive event: `addBuffer` and `parse`.
unfoldable pub receive : List ℕ → Slicer → Option Step
receive bs s = parse (add_buffer bs s)

abbrev pub hand_on : List Packet → Option (List Packet × Slicer) → Option (List Packet × Slicer)
hand_on items none = none
hand_on items (some (others, s)) = some (items ++ others, s)

abbrev pub receive_then :
    Option Step → (Slicer → Option (List Packet × Slicer)) → Option (List Packet × Slicer)
receive_then none next = none
receive_then (some (v, s)) next = hand_on s.parsed_items (next s)

-- A connection's receive events in order: the packets that each hands on, and the slicer behind them.
unfoldable pub receive_all : List (List ℕ) → Slicer → Option (List Packet × Slicer)
receive_all [] s = some ([], s)
receive_all (c ∷ cs) s = receive_then (receive c s) (receive_all cs)

-- `CPacketSlicer()`; the fields that `init` leaves unset are set before they are read.
unfoldable pub new_slicer : Slicer
new_slicer = record {
  buffer = Buffer.empty;
  parsed_items = [];
  state = State.header_magic;
  curr_from_id_len = 0;
  curr_to_id_len = 0;
  curr_from_id = [];
  curr_to_id = [];
  curr_header_len = 0;
  curr_code = 0;
  curr_body_len = 0;
}

unfoldable pub parsed_item_count : Slicer → ℕ
parsed_item_count s = length s.parsed_items

unfoldable pub parsed_item : ℕ → Slicer → Option Packet
parsed_item index s =
    if leb (length s.parsed_items) index then none else get_elem? s.parsed_items index
