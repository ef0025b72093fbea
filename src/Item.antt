-- ===== src/Item.antt =====
-- SharedPainter/PaintItem.h: the data of an item, and a line, an image and a text in bytes. An int and a
-- double are their bit patterns. A QColor is the four components that it is made of.
pub mod RoundTrip
pub mod Texts
use shared_painter.Common.{
  ℕ, zero, suc, Bool, true, false, List, [], ◌∷◌, ◌++◌, length, Option, none, some, Outcome, ok,
  throw, fault, and_then, attempt, ◌==◌,
}
use shared_painter.Wire.{
  Writer, Reader, write_string8, write_int16, write_int32, write_double, write_string16,
  write_string32, read_int8, read_int16, read_int32, read_double, read_string16, read_string32, ◌⨟◌,
  ◌>>=◌, done, emit,
}
use shared_painter.Wire.Fill.{Filler, fill, fill_string8, ◌▷◌, settle}
use shared_painter.Builder.{write_flag, read_flag}

-- SPaintData
pub record ItemData : Type 0 where
  pub pos_x : ℕ
  pub pos_y : ℕ
  pub scale : ℕ
  pub pos_set_flag : Bool
  pub item_id : ℕ
  pub owner : List ℕ

-- The data of a new item: a scale of 1, and zeros.
abbrev pub new_item_data : ItemData
new_item_data = record {
  pos_x = 0;
  pos_y = 0;
  scale = 0x3ff0_0000_0000_0000;
  pos_set_flag = false;
  item_id = 0;
  owner = [];
}

unfoldable pub write_item_data : ItemData → Writer
unfolding ◌⨟◌ write_string8 write_int32 write_flag write_double
write_item_data d =
    write_string8 d.owner
    ⨟ write_int32 d.item_id true
    ⨟ write_flag d.pos_set_flag
    ⨟ write_double d.pos_x
    ⨟ write_double d.pos_y
    ⨟ write_double d.scale

-- `serializeBasicData` with `writePos` 0 or NULL, as it is called.
unfoldable pub serialize_item_data : ItemData → Outcome (List ℕ)
unfolding write_item_data
serialize_item_data d = emit (write_item_data d)

-- The data with the locals `t` and `f`, which are stored after the last read only.
pub record Held : Type 0 where
  pub item : ItemData
  pub t : ℕ
  pub f : ℕ

unfoldable pub fill_held : Filler Held
unfolding fill ◌▷◌ fill_string8 read_int32 read_int8 read_double
fill_held =
    fill_string8 (λ v h. record h { item = record h.item { owner = v } })
    ▷ fill (read_int32 true) (λ v h. record h { t = v })
    ▷ fill read_int8 (λ v h. record h { f = v })
    ▷ fill read_double (λ v h. record h { item = record h.item { pos_x = v } })
    ▷ fill read_double (λ v h. record h { item = record h.item { pos_y = v } })
    ▷ fill read_double (λ v h. record h { item = record h.item { scale = v } })

abbrev pub commit : Held × Outcome ℕ → ItemData × Outcome ℕ
commit (h, ok n) = (record h.item { pos_set_flag = h.f == 1; item_id = h.t }, ok n)
commit (h, throw e) = (h.item, throw e)
commit (h, fault) = (h.item, fault)

unfoldable pub fill_item_data : Filler ItemData
unfolding fill_held
fill_item_data d buf pos = commit (fill_held (record { item = d; t = 0; f = 0 }) buf pos)

unfoldable pub deserialize_item_data : ItemData → List ℕ → ℕ → Outcome (ItemData × Option ℕ)
unfolding fill_item_data
deserialize_item_data d buf read_pos = settle (fill_item_data d buf read_pos)

-- CLineItem, with the data of its base class.
pub record LineItem : Type 0 where
  pub base : ItemData
  pub red : ℕ
  pub green : ℕ
  pub blue : ℕ
  pub alpha : ℕ
  pub w : ℕ
  pub list_list : List (ℕ × ℕ)

unfoldable pub write_points : List (ℕ × ℕ) → Writer
unfolding ◌⨟◌ write_double
write_points [] buf pos = ok (buf, 0)
write_points ((x, y) ∷ ps) buf pos = (write_double x ⨟ write_double y ⨟ write_points ps) buf pos

unfoldable pub serialize_line : LineItem → Outcome (List ℕ)
unfolding ◌⨟◌ write_item_data write_int16 write_points
serialize_line l = emit (
    write_item_data l.base
    ⨟ write_int16 l.red true
    ⨟ write_int16 l.green true
    ⨟ write_int16 l.blue true
    ⨟ write_int16 l.alpha true
    ⨟ write_int16 l.w true
    ⨟ write_int16 (length l.list_list) true
    ⨟ write_points l.list_list)

unfoldable pub read_points : ℕ → Reader (List (ℕ × ℕ))
unfolding ◌>>=◌ done read_double
read_points zero = done []
read_points (suc n) = do x ← read_double; y ← read_double; ps ← read_points n; done ((x, y) ∷ ps)

-- The rest of the line's bytes; the points are pushed behind those that the line has.
abbrev pub read_line : LineItem → Reader LineItem
read_line l = do
  r ← read_int16 true
  g ← read_int16 true
  b ← read_int16 true
  a ← read_int16 true
  w ← read_int16 true
  ps ← read_int16 true >>= read_points
  done (record l { red = r; green = g; blue = b; alpha = a; w = w; list_list = l.list_list ++ ps })

-- The rest of a parse behind the data of the base class, which is read from position 0. None stands
-- for false, with an object that the callers drop.
abbrev pub behind :
    {A : Type 0} → (ItemData → Reader A) → ItemData × Option ℕ → List ℕ → Outcome (Option A)
behind r (d, none) buf = ok none
behind r (d, some pos) buf = attempt (and_then (r d buf pos) (λ p. ok p.0))

unfoldable pub deserialize_line : LineItem → List ℕ → Outcome (Option LineItem)
unfolding deserialize_item_data ◌>>=◌ done read_int16 read_points
deserialize_line l buf =
    and_then (deserialize_item_data l.base buf 0)
      λ p. behind (λ d. read_line (record l { base = d })) p buf

-- CImageItem, and CBackgroundImageItem, which adds no data.
pub record ImageItem : Type 0 where
  pub base : ItemData
  pub byte_array : List ℕ

unfoldable pub serialize_image : ImageItem → Outcome (List ℕ)
unfolding ◌⨟◌ write_item_data write_string32
serialize_image i = emit (write_item_data i.base ⨟ write_string32 i.byte_array true)

abbrev pub read_image : ItemData → Reader ImageItem
read_image d = do bs ← read_string32 true; done (record { base = d; byte_array = bs })

unfoldable pub deserialize_image : ImageItem → List ℕ → Outcome (Option ImageItem)
unfolding deserialize_item_data ◌>>=◌ done read_string32
deserialize_image i buf =
    and_then (deserialize_item_data i.base buf 0) (λ p. behind read_image p buf)

-- CTextItem, with the data of its base class. A QString is its bytes in UTF-8.
pub record TextItem : Type 0 where
  pub base : ItemData
  pub red : ℕ
  pub green : ℕ
  pub blue : ℕ
  pub alpha : ℕ
  pub pixel_size : ℕ
  pub text : List ℕ
  pub family : List ℕ
  pub bold : Bool

unfoldable pub serialize_text : TextItem → Outcome (List ℕ)
unfolding ◌⨟◌ write_item_data write_int16 write_string16 write_flag
serialize_text i = emit (
    write_item_data i.base
    ⨟ write_int16 i.red true
    ⨟ write_int16 i.green true
    ⨟ write_int16 i.blue true
    ⨟ write_int16 i.alpha true
    ⨟ write_int16 i.pixel_size true
    ⨟ write_string16 i.text true
    ⨟ write_string16 i.family true
    ⨟ write_flag i.bold)

abbrev pub read_text : ItemData → Reader TextItem
read_text d = do
  r ← read_int16 true
  g ← read_int16 true
  b ← read_int16 true
  a ← read_int16 true
  s ← read_int16 true
  text ← read_string16 true
  family ← read_string16 true
  bold ← read_flag
  done (record {
    base = d;
    red = r;
    green = g;
    blue = b;
    alpha = a;
    pixel_size = s;
    text = text;
    family = family;
    bold = bold;
  })

unfoldable pub deserialize_text : TextItem → List ℕ → Outcome (Option TextItem)
unfolding deserialize_item_data ◌>>=◌ done read_int16 read_string16 read_flag
deserialize_text i buf = and_then (deserialize_item_data i.base buf 0) (λ p. behind read_text p buf)
