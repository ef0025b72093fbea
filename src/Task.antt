-- ===== src/Task.antt =====
-- SharedPainter/SharedPaintTask.h: the data of a task of CMoveItemTask and of CUpdateItemTask, in bytes. An int and a
-- double are their bit patterns.
pub mod RoundTrip
use shared_painter.Common.{
  ℕ, ◌+◌, Bool, true, false, List, [], ◌∷◌, ◌++◌, length, Option, none, some, Outcome, ok, and_then,
}
use shared_painter.Wire.{
  Writer, write_string8, write_int32, write_double, read_int32, read_double, ◌⨟◌, emit,
}
use shared_painter.Item.{ItemData, serialize_item_data, deserialize_item_data}
use shared_painter.Wire.Fill.{Filler, fill, fill_string8, ◌▷◌, settle}

pub record TaskData : Type 0 where
  pub item_id : ℕ
  pub owner : List ℕ

unfoldable pub write_basic_data : ℕ → List ℕ → Writer
unfolding ◌⨟◌ write_string8 write_int32
write_basic_data item_id owner = write_string8 owner ⨟ write_int32 item_id true

-- `serializeBasicData` with `writePos` 0 or NULL, as it is called.
unfoldable pub serialize_basic_data : TaskData → Outcome (List ℕ)
unfolding write_basic_data
serialize_basic_data d = emit (write_basic_data d.item_id d.owner)

unfoldable pub fill_basic_data : Filler TaskData
unfolding fill ◌▷◌ fill_string8 read_int32
fill_basic_data =
    fill_string8 (λ v d. record d { owner = v })
    ▷ fill (read_int32 true) (λ v d. record d { item_id = v })

unfoldable pub deserialize_basic_data : TaskData → List ℕ → ℕ → Outcome (TaskData × Option ℕ)
unfolding fill_basic_data
deserialize_basic_data d buf read_pos = settle (fill_basic_data d buf read_pos)

-- CMoveItemTask, with the data of its base class.
pub record MoveTask : Type 0 where
  pub item_id : ℕ
  pub owner : List ℕ
  pub prev_pos_x : ℕ
  pub prev_pos_y : ℕ
  pub pos_x : ℕ
  pub pos_y : ℕ

unfoldable pub serialize_move : MoveTask → Outcome (List ℕ)
unfolding ◌⨟◌ write_basic_data write_double
serialize_move m = emit (
    write_basic_data m.item_id m.owner
    ⨟ write_double m.prev_pos_x
    ⨟ write_double m.prev_pos_y
    ⨟ write_double m.pos_x
    ⨟ write_double m.pos_y)

unfoldable pub fill_move : Filler MoveTask
unfolding fill ◌▷◌ fill_string8 read_int32 read_double
fill_move =
    fill_string8 (λ v m. record m { owner = v })
    ▷ fill (read_int32 true) (λ v m. record m { item_id = v })
    ▷ fill read_double (λ v m. record m { prev_pos_x = v })
    ▷ fill read_double (λ v m. record m { prev_pos_y = v })
    ▷ fill read_double (λ v m. record m { pos_x = v })
    ▷ fill read_double (λ v m. record m { pos_y = v })

abbrev pub succeeded : Option ℕ → Bool
succeeded (some n) = true
succeeded none = false

-- Whatever `readPos` is, the bytes are read from position 0, and it is not moved.
unfoldable pub deserialize_move : MoveTask → List ℕ → Outcome (MoveTask × Bool)
unfolding fill_move
deserialize_move m buf = and_then (settle (fill_move m buf 0)) (λ p. ok (p.0, succeeded p.1))

-- CUpdateItemTask, with the data of its base class.
pub record UpdateTask : Type 0 where
  pub base : TaskData
  pub prev_paint_data : ItemData
  pub paint_data : ItemData

unfoldable pub serialize_update : UpdateTask → Outcome (List ℕ)
unfolding serialize_basic_data serialize_item_data
serialize_update u = and_then (serialize_basic_data u.base) λ data₀.
    and_then (serialize_item_data u.prev_paint_data)
      λ data₁. and_then (serialize_item_data u.paint_data) λ data₂. ok (data₀ ++ (data₁ ++ data₂))

-- A position stays where it is when false is returned.
abbrev pub moved : ℕ → Option ℕ → ℕ
moved pos none = pos
moved pos (some n) = pos + n

abbrev pub fill_update : UpdateTask → List ℕ → TaskData × Option ℕ → Outcome (UpdateTask × Bool)
fill_update u buf (base, none) = ok (record u { base = base }, false)
fill_update u buf (base, some pos) = and_then (deserialize_item_data u.prev_paint_data buf pos) λ p.
    and_then (deserialize_item_data u.paint_data buf (moved pos p.1))
      λ q. ok (record { base = base; prev_paint_data = p.0; paint_data = q.0 }, true)

-- `readPos` is NULL, as it is called. The results of the two calls for the items are not looked at.
unfoldable pub deserialize_update : UpdateTask → List ℕ → Outcome (UpdateTask × Bool)
unfolding deserialize_basic_data deserialize_item_data
deserialize_update u buf = and_then (deserialize_basic_data u.base buf 0) (fill_update u buf)
