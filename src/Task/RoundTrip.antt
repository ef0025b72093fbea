-- ===== src/Task/RoundTrip.antt =====
-- SharedPaintTask.h: serialize and deserialize.
use shared_painter.Common.{
  ℕ, ◌<◌, ◌^◌, ◌≡◌, refl, true, List, [], ◌++◌, append_assoc, append-nil, length, length-append, ap,
  ◌+◌, some, ok, subst, ◌∙◌, sym,
}
use shared_painter.Wire.Bytes.{word_bytes}
use shared_painter.Wire.Write.{
  str8, emit_lem, Writes-seq, Writes-string8, Writes-int32, Writes-double,
}
use shared_painter.Wire.Read.{Reads-int32, Reads-double}
use shared_painter.Wire.Fill.{Fills, Fills-fill, Fills-string8, Fills-seq}
use shared_painter.Builder.Carries.{IsShort}
use shared_painter.Item.{deserialize_item_data}
use shared_painter.Item.RoundTrip.{IsPlain, data_bytes, deserialize_item_data-serialize_item_data}
use shared_painter.Task.{
  TaskData, serialize_basic_data, fill_basic_data, deserialize_basic_data, write_basic_data,
  MoveTask, serialize_move, fill_move, deserialize_move, UpdateTask, serialize_update,
  deserialize_update,
}

-- The data of a task whose owner's name is short are serialized, and deserialized from wherever
-- their bytes stand, with the position moved behind them.
pub deserialize_basic_data-serialize_basic_data :
    (old d : TaskData) (pre post : List ℕ)
    → IsShort d.owner
    → d.item_id < 2 ^ 32
    → (bs : List ℕ) × (serialize_basic_data d ≡ ok bs)
      × (deserialize_basic_data old (pre ++ (bs ++ post)) (length pre) ≡ ok (d, some (length bs)))
unfolding serialize_basic_data deserialize_basic_data write_basic_data fill_basic_data
deserialize_basic_data-serialize_basic_data old d pre post h k = (
  str8 d.owner ++ word_bytes 4 true d.item_id,
  emit_lem (Writes-seq (Writes-string8 d.owner h) (Writes-int32 d.item_id true)),
  rw (filled.found pre post) refl,
)
  where
    filled : Fills fill_basic_data old d (str8 d.owner ++ word_bytes 4 true d.item_id)
    filled = Fills-seq (Fills-string8 _ _ d.owner h) (Fills-fill _ _ (Reads-int32 d.item_id true k))

-- A move whose owner's name is short comes back with both positions, bit for bit.
pub deserialize_move-serialize_move :
    (old m : MoveTask)
    → IsShort m.owner
    → m.item_id < 2 ^ 32
    → m.prev_pos_x < 2 ^ 64
    → m.prev_pos_y < 2 ^ 64
    → m.pos_x < 2 ^ 64
    → m.pos_y < 2 ^ 64
    → (bs : List ℕ) × (serialize_move m ≡ ok bs) × (deserialize_move old bs ≡ ok (m, true))
unfolding serialize_move deserialize_move write_basic_data fill_move
deserialize_move-serialize_move old m h k hx hy hz hw = (
  (str8 m.owner ++ word_bytes 4 true m.item_id) ++ positions,
  emit_lem (
      Writes-seq (Writes-seq (Writes-string8 m.owner h) (Writes-int32 m.item_id true)) (
        Writes-seq (Writes-double m.prev_pos_x) (
          Writes-seq (Writes-double m.prev_pos_y)
            (Writes-seq (Writes-double m.pos_x) (Writes-double m.pos_y))))),
  rw from_start refl,
)
  where
    positions : List ℕ
    positions =
        word_bytes 8 true m.prev_pos_x
        ++ (word_bytes 8 true m.prev_pos_y
            ++ (word_bytes 8 true m.pos_x ++ word_bytes 8 true m.pos_y))

    bytes : List ℕ
    bytes = str8 m.owner ++ (word_bytes 4 true m.item_id ++ positions)

    filled : Fills fill_move old m bytes
    filled = Fills-seq (Fills-string8 _ _ m.owner h) (
        Fills-seq (Fills-fill _ _ (Reads-int32 m.item_id true k)) (
          Fills-seq (Fills-fill _ _ (Reads-double m.prev_pos_x hx)) (
            Fills-seq (Fills-fill _ _ (Reads-double m.prev_pos_y hy)) (
              Fills-seq (Fills-fill _ _ (Reads-double m.pos_x hz))
                (Fills-fill _ _ (Reads-double m.pos_y hw))))))

    from_start :
        fill_move old ((str8 m.owner ++ word_bytes 4 true m.item_id) ++ positions) 0
        ≡ (m, ok (length bytes))
    from_start =
        subst (λ t. fill_move old t 0 ≡ (m, ok (length bytes)))
          (append-nil bytes
            ∙ sym (append_assoc (str8 m.owner) (word_bytes 4 true m.item_id) positions))
          (filled.found [] [])

-- An update comes back with the data of the item before and after it.
pub deserialize_update-serialize_update :
    (old u : UpdateTask)
    → IsShort u.base.owner
    → u.base.item_id < 2 ^ 32
    → IsPlain u.prev_paint_data
    → IsPlain u.paint_data
    → (bs : List ℕ) × (serialize_update u ≡ ok bs) × (deserialize_update old bs ≡ ok (u, true))
unfolding serialize_update deserialize_update
deserialize_update-serialize_update old u h k hp hq =
    let (bs, made, read) =
      deserialize_basic_data-serialize_basic_data old.base u.base [] (prev ++ next) h k in
    let first =
      deserialize_item_data-serialize_item_data old.prev_paint_data u.prev_paint_data bs next hp in
    let second =
      deserialize_item_data-serialize_item_data old.paint_data u.paint_data (bs ++ prev) [] hq in
    let shifted : deserialize_item_data old.paint_data (bs ++ (prev ++ next))
          (length bs + length prev)
        ≡ ok (u.paint_data, some (length next)) =
      subst
        (λ n.
          deserialize_item_data old.paint_data (bs ++ (prev ++ next)) n
          ≡ ok (u.paint_data, some (length next)))
        (length-append bs prev)
        (subst
          (λ t.
            deserialize_item_data old.paint_data t (length (bs ++ prev))
            ≡ ok (u.paint_data, some (length next)))
          (ap (λ t. (bs ++ prev) ++ t) (append-nil next) ∙ append_assoc bs prev next) second.1) in
    (bs ++ (prev ++ next), rw (made, first.0, second.0) refl, rw (read, first.1, shifted) refl)
  where
    prev : List ℕ
    prev = data_bytes u.prev_paint_data

    next : List ℕ
    next = data_bytes u.paint_data
