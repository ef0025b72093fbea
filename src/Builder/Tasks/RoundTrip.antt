-- ===== src/Builder/Tasks/RoundTrip.antt =====
-- TaskPacketBuilder.h: make and parse of a task of each class.
use shared_painter.Common.{
  ℕ, ◌<◌, ◌≤◌, ◌^◌, ◌≡◌, refl, subst, arith, true, List, [], ◌++◌, drop, length, Option, none, some,
  ok, fault, append-nil,
}
use shared_painter.Wire.{read_int16}
use shared_painter.Wire.Bytes.{word_bytes}
use shared_painter.Wire.Write.{emit_lem, Writes-int16}
use shared_painter.Wire.Read.{Reads-int16}
use shared_painter.Builder.{text_or_empty, make_packet-frame}
use shared_painter.Builder.Carries.{IsShort, Carries}
use shared_painter.Item.RoundTrip.{IsPlain}
use shared_painter.Task.{
  TaskData, UpdateTask, MoveTask, serialize_basic_data, deserialize_basic_data,
}
use shared_painter.Task.RoundTrip.{
  deserialize_basic_data-serialize_basic_data, deserialize_update-serialize_update,
  deserialize_move-serialize_move,
}
use shared_painter.Builder.Tasks.{
  Task, add_item, update_item, remove_item, move_item, type, serialize_task, create_task,
  deserialize_task, on_task, make_execute_task, parse_execute_task,
}

-- The owner's name fits its length byte, and each word its width.
abbrev pub IsSendable : Task → Type 0
IsSendable (add_item d) = IsShort d.owner × (d.item_id < 2 ^ 32)
IsSendable (remove_item d) = IsShort d.owner × (d.item_id < 2 ^ 32)
IsSendable (update_item u) =
    IsShort u.base.owner
    × (u.base.item_id < 2 ^ 32)
    × IsPlain u.prev_paint_data
    × IsPlain u.paint_data
IsSendable (move_item m) =
    IsShort m.owner
    × (m.item_id < 2 ^ 32)
    × (m.prev_pos_x < 2 ^ 64)
    × (m.prev_pos_y < 2 ^ 64)
    × (m.pos_x < 2 ^ 64)
    × (m.pos_y < 2 ^ 64)

basic :
    (old d : TaskData)
    → IsShort d.owner
    → d.item_id < 2 ^ 32
    → (bs : List ℕ) × (serialize_basic_data d ≡ ok bs)
      × (deserialize_basic_data old bs 0 ≡ ok (d, some (length bs)))
basic old d h k =
    let (bs, made, read) = deserialize_basic_data-serialize_basic_data old d [] [] h k in
    (
      bs,
      made,
      subst (λ t. deserialize_basic_data old t 0 ≡ ok (d, some (length bs))) (append-nil bs) read,
    )

-- A task of the class is made anew and gets the data.
on_task_lem :
    (u : UpdateTask) (m : MoveTask) (task : Task)
    → IsSendable task
    → (bs : List ℕ) × (serialize_task task ≡ ok bs)
      × (on_task (create_task u m (type task)) bs ≡ ok (some task))
unfolding serialize_task deserialize_task
on_task_lem u m (add_item d) h =
    let (bs, made, read) = basic u.base d h.0 h.1 in (bs, made, rw read refl)
on_task_lem u m (remove_item d) h =
    let (bs, made, read) = basic u.base d h.0 h.1 in (bs, made, rw read refl)
on_task_lem u m (update_item t) h =
    let (bs, made, read) = deserialize_update-serialize_update u t h.0 h.1 h.2 h.3 in
    (bs, made, rw read refl)
on_task_lem u m (move_item t) h =
    let (bs, made, read) = deserialize_move-serialize_move m t h.0 h.1 h.2 h.3 h.4 h.5 in
    (bs, made, rw read refl)

type-fits : (task : Task) → type task < 2 ^ 16
type-fits (add_item d) = omega arith
type-fits (update_item u) = omega arith
type-fits (remove_item d) = omega arith
type-fits (move_item m) = omega arith

read_type :
    (t : ℕ) (rest : List ℕ)
    → t < 2 ^ 16
    → read_int16 true (word_bytes 2 true t ++ rest) 0 ≡ ok (t, 2)
unfolding word_bytes
read_type t rest h = (Reads-int16 t true h).finds [] rest

drop_type : (t : ℕ) (rest : List ℕ) → drop 2 (word_bytes 2 true t ++ rest) ≡ rest
unfolding word_bytes
drop_type t rest = refl

-- A task of any class is sent in one packet, and whatever new tasks hold, the body of the packet gives
-- a task of that class with that data.
pub execute_task-Carries :
    (u : UpdateTask) (m : MoveTask) (task : Task) (target : Option (List ℕ))
    → IsSendable task
    → IsShort (text_or_empty target)
    → Carries
        (make_execute_task task target)
        23
        []
        (text_or_empty target)
        (parse_execute_task u m)
        task
unfolding make_execute_task parse_execute_task
execute_task-Carries u m task target h ht =
    let (bs, made, on) = on_task_lem u m task h in
    record {
      body = word_bytes 2 true (type task) ++ bs;
      makes =
          rw
            (
              made,
              emit_lem (Writes-int16 (type task) true),
              make_packet-frame 23 (word_bytes 2 true (type task) ++ bs) none target (omega arith)
                  ht,
            )
            refl;
      parses = rw (read_type (type task) bs (type-fits task), drop_type (type task) bs, on) refl;
    }

create_nothing : (u : UpdateTask) (m : MoveTask) (t : ℕ) → 4 ≤ t → create_task u m t ≡ none
create_nothing u m t h = ground arith

-- A body with the number of no class leads to a null pointer that is used, whatever follows.
pub parse_execute_task-unknown :
    (u : UpdateTask) (m : MoveTask) (t : ℕ) (rest : List ℕ)
    → 4 ≤ t
    → t < 2 ^ 16
    → parse_execute_task u m (word_bytes 2 true t ++ rest) ≡ fault
unfolding parse_execute_task
parse_execute_task-unknown u m t rest h k = rw (read_type t rest k, create_nothing u m t h) refl
