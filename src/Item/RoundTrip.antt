-- ===== src/Item/RoundTrip.antt =====
-- PaintItem.h: serialize and deserialize.
use shared_painter.Common.{
  ℕ, ◌<◌, ◌≤◌, ◌^◌, ◌≡◌, refl, sym, subst, arith, Bool, true, false, List, [], ◌∷◌, ◌++◌,
  append-nil, length, some, ok, and_then, if◌then◌else◌, All,
}
use shared_painter.Wire.{Reader, read_int16, read_double, ◌>>=◌, done}
use shared_painter.Wire.Bytes.{word_bytes}
use shared_painter.Wire.Write.{
  str8, str32, Writes, emit_lem, Writes-seq, Writes-string8, Writes-string32, Writes-int16,
  Writes-int32, Writes-double, Writes-none,
}
use shared_painter.Wire.Read.{
  Reads, Reads-string32, Reads-int8, Reads-int16, Reads-int32, Reads-double, Reads-bind, Reads-map,
  Reads-done,
}
use shared_painter.Wire.Fill.{Fills, Fills-fill, Fills-string8, Fills-seq}
use shared_painter.Builder.Carries.{IsShort, Writes-flag}
use shared_painter.Item.{
  ItemData, LineItem, ImageItem, write_item_data, serialize_item_data, fill_held, fill_item_data,
  deserialize_item_data, write_points, read_points, serialize_line, deserialize_line, read_line,
  serialize_image, deserialize_image, read_image, behind,
}

-- Data whose owner fits its length byte, and whose words fit theirs.
pub record IsPlain (d : ItemData) : Type 0 where
  pub owner_short : IsShort d.owner
  pub item_id_fits : d.item_id < 2 ^ 32
  pub pos_x_fits : d.pos_x < 2 ^ 64
  pub pos_y_fits : d.pos_y < 2 ^ 64
  pub scale_fits : d.scale < 2 ^ 64

abbrev pub data_bytes : ItemData → List ℕ
data_bytes d =
    str8 d.owner
    ++ (word_bytes 4 true d.item_id
        ++ (word_bytes 1 true (if d.pos_set_flag then 1 else 0)
            ++ (word_bytes 8 true d.pos_x
                ++ (word_bytes 8 true d.pos_y ++ word_bytes 8 true d.scale))))

pub Writes-item_data : (d : ItemData) → IsShort d.owner → Writes (write_item_data d) (data_bytes d)
unfolding write_item_data
Writes-item_data d h = Writes-seq (Writes-string8 d.owner h) (
    Writes-seq (Writes-int32 d.item_id true) (
      Writes-seq (Writes-flag d.pos_set_flag) (
        Writes-seq (Writes-double d.pos_x)
          (Writes-seq (Writes-double d.pos_y) (Writes-double d.scale)))))

pub Fills-item_data : (old d : ItemData) → IsPlain d → Fills fill_item_data old d (data_bytes d)
unfolding fill_item_data fill_held
Fills-item_data old d h = flagged d.pos_set_flag
  where
    small : (b : Bool) → (if b then 1 else 0) < 256
    small true = omega arith
    small false = omega arith

    filled :
        (b : Bool)
        → Fills fill_held
            (record { item = old; t = 0; f = 0 })
            (record {
              item = record d { pos_set_flag = old.pos_set_flag; item_id = old.item_id };
              t = d.item_id;
              f = if b then 1 else 0;
            })
            (str8 d.owner
              ++ (word_bytes 4 true d.item_id
                  ++ (word_bytes 1 true (if b then 1 else 0)
                      ++ (word_bytes 8 true d.pos_x
                          ++ (word_bytes 8 true d.pos_y ++ word_bytes 8 true d.scale)))))
    filled b = Fills-seq (Fills-string8 _ _ d.owner h.owner_short) (
        Fills-seq (Fills-fill _ _ (Reads-int32 d.item_id true h.item_id_fits)) (
          Fills-seq (Fills-fill _ _ (Reads-int8 (if b then 1 else 0) (small b))) (
            Fills-seq (Fills-fill _ _ (Reads-double d.pos_x h.pos_x_fits)) (
              Fills-seq (Fills-fill _ _ (Reads-double d.pos_y h.pos_y_fits))
                (Fills-fill _ _ (Reads-double d.scale h.scale_fits))))))

    flagged :
        (b : Bool)
        → Fills fill_item_data old
            (record d { pos_set_flag = b })
            (data_bytes (record d { pos_set_flag = b }))
    flagged true = record { found = λ pre post. rw ((filled true).found pre post) refl }
    flagged false = record { found = λ pre post. rw ((filled false).found pre post) refl }

-- The rest is read where it stands.
pub behind-Reads :
    {A : Type 0} (r : ItemData → Reader A) (d old : ItemData) (a : A) (rest : List ℕ)
    → IsPlain d
    → Reads (r d) a rest
    → and_then
        (deserialize_item_data old (data_bytes d ++ rest) 0)
        (λ p. behind r p (data_bytes d ++ rest))
      ≡ ok (some a)
unfolding deserialize_item_data
behind-Reads {A} r d old a rest h hr = rw base (rw here refl)
  where
    base : fill_item_data old (data_bytes d ++ rest) 0 ≡ (d, ok (length (data_bytes d)))
    base = (Fills-item_data old d h).found [] rest

    here : r d (data_bytes d ++ rest) (length (data_bytes d)) ≡ ok (a, length rest)
    here =
        subst (λ t. r d (data_bytes d ++ t) (length (data_bytes d)) ≡ ok (a, length rest))
          (append-nil rest) (hr.finds (data_bytes d) [])

-- The points of a line, of 64-bit words.
abbrev pub ArePoints : List (ℕ × ℕ) → Type 0
ArePoints ps = All (λ (p : ℕ × ℕ). (p.0 < 2 ^ 64) × (p.1 < 2 ^ 64)) ps

abbrev points_bytes : List (ℕ × ℕ) → List ℕ
points_bytes [] = []
points_bytes ((x, y) ∷ ps) = word_bytes 8 true x ++ (word_bytes 8 true y ++ points_bytes ps)

Writes-points : (ps : List (ℕ × ℕ)) → Writes (write_points ps) (points_bytes ps)
unfolding write_points
Writes-points [] = Writes-none (λ buf. refl)
Writes-points ((x, y) ∷ ps) = record {
  appends =
      (Writes-seq (Writes-double x) (Writes-seq (Writes-double y) (Writes-points ps))).appends;
}

Reads-points :
    (ps : List (ℕ × ℕ)) → ArePoints ps → Reads (read_points (length ps)) ps (points_bytes ps)
unfolding read_points
Reads-points [] h = Reads-done []
Reads-points ((x, y) ∷ ps) h =
    Reads-bind (λ a. do b ← read_double; qs ← read_points (length ps); done ((a, b) ∷ qs))
      (Reads-double x h.0.0)
      (Reads-bind (λ b. do qs ← read_points (length ps); done ((x, b) ∷ qs)) (Reads-double y h.0.1)
        (Reads-map (λ qs. (x, y) ∷ qs) (Reads-points ps h.1)))

-- The components of a colour and the width are 16-bit words, and fewer than 65536 points are counted
-- right.
pub record IsDrawn (l : LineItem) : Type 0 where
  pub plain : IsPlain l.base
  pub red_fits : l.red < 2 ^ 16
  pub green_fits : l.green < 2 ^ 16
  pub blue_fits : l.blue < 2 ^ 16
  pub alpha_fits : l.alpha < 2 ^ 16
  pub w_fits : l.w < 2 ^ 16
  pub few : length l.list_list < 2 ^ 16
  pub points : ArePoints l.list_list

pub deserialize_line-serialize_line :
    (old l : LineItem)
    → IsDrawn l
    → old.list_list ≡ []
    → (bs : List ℕ) × (serialize_line l ≡ ok bs) × (deserialize_line old bs ≡ ok (some l))
unfolding serialize_line deserialize_line
deserialize_line-serialize_line old l h fresh = (
  data_bytes l.base ++ rest,
  emit_lem (
      Writes-seq (Writes-item_data l.base h.plain.owner_short) (
        Writes-seq (Writes-int16 l.red true) (
          Writes-seq (Writes-int16 l.green true) (
            Writes-seq (Writes-int16 l.blue true) (
              Writes-seq (Writes-int16 l.alpha true) (
                Writes-seq (Writes-int16 l.w true) (
                  Writes-seq (Writes-int16 (length l.list_list) true)
                    (Writes-points l.list_list)))))))),
  behind-Reads (λ d. read_line (record old { base = d })) l.base old.base l rest h.plain
      (subst (λ xs. Reads (read_line (record old { base = l.base; list_list = xs })) l rest)
        (sym fresh) reads),
)
  where
    rest : List ℕ
    rest =
        word_bytes 2 true l.red
        ++ (word_bytes 2 true l.green
            ++ (word_bytes 2 true l.blue
                ++ (word_bytes 2 true l.alpha
                    ++ (word_bytes 2 true l.w
                        ++ (word_bytes 2 true (length l.list_list) ++ points_bytes l.list_list)))))

    drawn : ℕ → ℕ → ℕ → ℕ → ℕ → List (ℕ × ℕ) → LineItem
    drawn r g b a w ps = record {
      base = l.base;
      red = r;
      green = g;
      blue = b;
      alpha = a;
      w = w;
      list_list = ps;
    }

    points : Reader (List (ℕ × ℕ))
    points = read_int16 true >>= read_points

    reads : Reads (read_line (record old { base = l.base; list_list = [] })) l rest
    reads =
        Reads-bind
          (λ r. do
            g ← read_int16 true
            b ← read_int16 true
            a ← read_int16 true
            w ← read_int16 true
            ps ← points
            done (drawn r g b a w ps))
          (Reads-int16 l.red true h.red_fits)
          (Reads-bind
            (λ g. do
              b ← read_int16 true
              a ← read_int16 true
              w ← read_int16 true
              ps ← points
              done (drawn l.red g b a w ps))
            (Reads-int16 l.green true h.green_fits)
            (Reads-bind
              (λ b. do
                a ← read_int16 true
                w ← read_int16 true
                ps ← points
                done (drawn l.red l.green b a w ps))
              (Reads-int16 l.blue true h.blue_fits)
              (Reads-bind
                (λ a. do w ← read_int16 true; ps ← points; done (drawn l.red l.green l.blue a w ps))
                (Reads-int16 l.alpha true h.alpha_fits)
                (Reads-bind (λ w. do ps ← points; done (drawn l.red l.green l.blue l.alpha w ps))
                  (Reads-int16 l.w true h.w_fits)
                  (Reads-map (drawn l.red l.green l.blue l.alpha l.w) (
                    Reads-bind read_points (Reads-int16 (length l.list_list) true h.few)
                      (Reads-points l.list_list h.points)))))))

-- An image comes back, of up to 2 ^ 32 - 1 bytes.
pub deserialize_image-serialize_image :
    (old i : ImageItem)
    → IsPlain i.base
    → length i.byte_array ≤ 0xffff_ffff
    → (bs : List ℕ) × (serialize_image i ≡ ok bs) × (deserialize_image old bs ≡ ok (some i))
unfolding serialize_image deserialize_image
deserialize_image-serialize_image old i h short = (
  data_bytes i.base ++ str32 true i.byte_array,
  emit_lem (
      Writes-seq (Writes-item_data i.base h.owner_short) (Writes-string32 i.byte_array true short)),
  behind-Reads read_image i.base old.base i (str32 true i.byte_array) h (
      Reads-map (λ bs. record { base = i.base; byte_array = bs })
        (Reads-string32 i.byte_array true short)),
)

-- The data of an item are deserialized from wherever their bytes stand.
pub deserialize_item_data-serialize_item_data :
    (old d : ItemData) (pre post : List ℕ)
    → IsPlain d
    → (serialize_item_data d ≡ ok (data_bytes d))
      × (deserialize_item_data old (pre ++ (data_bytes d ++ post)) (length pre)
          ≡ ok (d, some (length (data_bytes d))))
unfolding serialize_item_data deserialize_item_data
deserialize_item_data-serialize_item_data old d pre post h = (
  emit_lem (Writes-item_data d h.owner_short),
  rw ((Fills-item_data old d h).found pre post) refl,
)
