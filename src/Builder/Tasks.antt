-- ===== src/Builder/Tasks.antt =====
-- SharedPainter/TaskPacketBuilder.h, class CExecuteTask, and SharedPainter/SharedPaintTaskFactory.h.
pub mod RoundTrip
use shared_painter.Common.{
  ℕ, ◌+◌, ◌<◌, ◌≤◌, ◌^◌, ◌≡◌, refl, sym, ap, subst, ◌∙◌, arith, Bool, true, false, List, [], ◌∷◌,
  ◌++◌, drop, length, Option, none, some, Outcome, ok, throw, fault, and_then, catch, ◌==◌,
  if◌then◌else◌, append_assoc, append-nil,
}
use shared_painter.Wire.{write_int16, read_int16, emit}
use shared_painter.Builder.{make_packet, text_or_empty, make_packet-frame, frame}
use shared_painter.Task.{
  TaskData, UpdateTask, MoveTask, serialize_basic_data, deserialize_basic_data, serialize_update,
  deserialize_update, serialize_move, deserialize_move,
}

-- The classes of tasks, with their data.
pub data Task : Type 0 where
  add_item : TaskData → Task
  update_item : UpdateTask → Task
  remove_item : TaskData → Task
  move_item : MoveTask → Task

abbrev pub type : Task → ℕ
type (add_item d) = 0
type (update_item u) = 1
type (remove_item d) = 2
type (move_item m) = 3

unfoldable pub serialize_task : Task → Outcome (List ℕ)
unfolding serialize_basic_data serialize_update serialize_move
serialize_task (add_item d) = serialize_basic_data d
serialize_task (update_item u) = serialize_update u
serialize_task (remove_item d) = serialize_basic_data d
serialize_task (move_item m) = serialize_move m

-- A new task, or a null pointer. `u` and `m` are what new objects hold, most of it unset.
abbrev pub create_task : UpdateTask → MoveTask → ℕ → Option Task
create_task u m t =
    if t == 0
    then some (add_item u.base)
    else if t == 1
    then some (update_item u)
    else if t == 2
    then some (remove_item u.base)
    else if t == 3
    then some (move_item m)
    else none

abbrev pub if_true : {A : Type 0} → (A → Task) → A × Bool → Option Task
if_true task (a, true) = some (task a)
if_true task (a, false) = none

abbrev pub if_moved : (TaskData → Task) → TaskData × Option ℕ → Option Task
if_moved task (d, some n) = some (task d)
if_moved task (d, none) = none

-- The task after `deserialize`, or none where it returns false.
unfoldable pub deserialize_task : Task → List ℕ → Outcome (Option Task)
unfolding deserialize_basic_data deserialize_update deserialize_move
deserialize_task (add_item d) buf =
    and_then (deserialize_basic_data d buf 0) (λ p. ok (if_moved add_item p))
deserialize_task (update_item u) buf =
    and_then (deserialize_update u buf) (λ p. ok (if_true update_item p))
deserialize_task (remove_item d) buf =
    and_then (deserialize_basic_data d buf 0) (λ p. ok (if_moved remove_item p))
deserialize_task (move_item m) buf =
    and_then (deserialize_move m buf) (λ p. ok (if_true move_item p))

-- The data are made before the `try`.
unfoldable pub make_execute_task : Task → Option (List ℕ) → Outcome (List ℕ)
unfolding serialize_task write_int16 make_packet
make_execute_task task target = and_then (serialize_task task) λ data₀.
    catch
      (and_then (emit (write_int16 (type task) true))
        λ body. make_packet 23 (body ++ data₀) none target)
      []

abbrev pub on_task : Option Task → List ℕ → Outcome (Option Task)
on_task none buf = fault
on_task (some task) buf = deserialize_task task buf

unfoldable pub parse_execute_task : UpdateTask → MoveTask → List ℕ → Outcome (Option Task)
unfolding read_int16 deserialize_task
parse_execute_task u m body =
    catch (and_then (read_int16 true body 0) λ p. on_task (create_task u m p.0) (drop p.1 body))
      none
