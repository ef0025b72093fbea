-- ===== src/Examples/Tasks.antt =====
-- Tasks and items in bytes.
use shared_painter.Common.{
  ℕ, ◌≡◌, refl, arith, true, false, List, [], ◌∷◌, ◌++◌, some, none, ok, fault,
}
use shared_painter.Wire.Bytes.{word_bytes}
use shared_painter.Builder.{frame}
use shared_painter.Builder.Carries.{Carries}
use shared_painter.Builder.Paint
use shared_painter.Builder.Backgrounds
use shared_painter.Builder.Tasks.{update_item, make_execute_task, parse_execute_task}
use shared_painter.Builder.Tasks.RoundTrip.{execute_task-Carries, parse_execute_task-unknown}
use shared_painter.Item.{
  ItemData, LineItem, ImageItem, TextItem, new_item_data, serialize_line, deserialize_line,
  serialize_text, deserialize_text,
}
use shared_painter.Item.RoundTrip.{IsPlain, IsDrawn}
use shared_painter.Item.Texts.{IsWritten, items-round_trip}
use shared_painter.Task.{TaskData, MoveTask, UpdateTask}

abbrev unset_data : TaskData
unset_data = record { item_id = 0; owner = [] }

abbrev data_of_7 : ItemData
data_of_7 = record new_item_data { item_id = 7; owner = 97 ∷ []; pos_x = 1; pos_set_flag = true }

abbrev unset_move : MoveTask
unset_move = record {
  item_id = 0;
  owner = [];
  prev_pos_x = 0;
  prev_pos_y = 0;
  pos_x = 0;
  pos_y = 0;
}

abbrev unset_update : UpdateTask
unset_update = record {
  base = unset_data;
  prev_paint_data = new_item_data;
  paint_data = new_item_data;
}

abbrev update_of_7 : UpdateTask
update_of_7 = record {
  base = record { item_id = 7; owner = 97 ∷ [] };
  prev_paint_data = new_item_data;
  paint_data = data_of_7;
}

new_item_data-IsPlain : IsPlain new_item_data
new_item_data-IsPlain = record {
  owner_short = omega arith;
  item_id_fits = omega arith;
  pos_x_fits = omega arith;
  pos_y_fits = omega arith;
  scale_fits = omega arith;
}

data_of_7-IsPlain : IsPlain data_of_7
data_of_7-IsPlain = record {
  owner_short = omega arith;
  item_id_fits = omega arith;
  pos_x_fits = omega arith;
  pos_y_fits = omega arith;
  scale_fits = omega arith;
}

execute_task-Carries_example :
    Carries
      (make_execute_task (update_item update_of_7) none)
      23
      []
      []
      (parse_execute_task unset_update unset_move)
      (update_item update_of_7)
execute_task-Carries_example =
    execute_task-Carries unset_update unset_move (update_item update_of_7) none
      (omega arith, omega arith, new_item_data-IsPlain, data_of_7-IsPlain) (omega arith)

parse_execute_task-unknown_example :
    parse_execute_task unset_update unset_move (word_bytes 2 true 4 ++ (1 ∷ [])) ≡ fault
parse_execute_task-unknown_example =
    parse_execute_task-unknown unset_update unset_move 4 (1 ∷ []) (omega arith) (omega arith)

abbrev line : LineItem
line = record {
  base = data_of_7;
  red = 255;
  green = 0;
  blue = 1;
  alpha = 255;
  w = 3;
  list_list = (1, 2) ∷ (3, 4) ∷ [];
}

abbrev new_line : LineItem
new_line = record {
  base = new_item_data;
  red = 0;
  green = 0;
  blue = 0;
  alpha = 0;
  w = 0;
  list_list = [];
}

abbrev text : TextItem
text = record {
  base = data_of_7;
  red = 255;
  green = 0;
  blue = 1;
  alpha = 255;
  pixel_size = 12;
  text = 104 ∷ 105 ∷ [];
  family = 97 ∷ [];
  bold = true;
}

abbrev new_text : TextItem
new_text = record text { base = new_item_data; text = []; family = []; bold = false }

line-IsDrawn : IsDrawn line
line-IsDrawn = record {
  plain = data_of_7-IsPlain;
  red_fits = omega arith;
  green_fits = omega arith;
  blue_fits = omega arith;
  alpha_fits = omega arith;
  w_fits = omega arith;
  few = omega arith;
  points = ((omega arith, omega arith), ((omega arith, omega arith), tt));
}

text-IsWritten : IsWritten text
text-IsWritten = record {
  plain = data_of_7-IsPlain;
  red_fits = omega arith;
  green_fits = omega arith;
  blue_fits = omega arith;
  alpha_fits = omega arith;
  pixel_size_fits = omega arith;
  text_fits = omega arith;
  family_fits = omega arith;
}

items-round_trip_example :
    ((bs : List ℕ) × (serialize_line line ≡ ok bs)
      × (deserialize_line new_line bs ≡ ok (some line)))
    × ((bs : List ℕ) × (serialize_text text ≡ ok bs)
        × (deserialize_text new_text bs ≡ ok (some text)))
items-round_trip_example =
    items-round_trip new_line line new_text text line-IsDrawn refl text-IsWritten

abbrev image : ImageItem
image = record { base = data_of_7; byte_array = 1 ∷ 2 ∷ [] }

backgrounds-Carries_example :
    Carries
      (Paint.make_set_background_grid_line 65537 none)
      19
      []
      []
      Paint.parse_set_background_grid_line
      1
    × Carries
        (Paint.make_set_background_color 1 2 3 255 none)
        18
        []
        []
        Paint.parse_set_background_color
        (1, 2, 3, 255)
    × Carries
        (Backgrounds.make_set_background_image image none)
        17
        []
        []
        Backgrounds.parse_set_background_image
        image
    × (Backgrounds.make_clear_background ≡ ok (frame 20 [] [] []))
    × (Backgrounds.make_clear_screen ≡ ok (frame 21 [] [] []))
backgrounds-Carries_example =
    Backgrounds.backgrounds-Carries 65537 1 2 3 255 image none data_of_7-IsPlain (omega arith)
      (omega arith)
