-- ===== src/Item/Texts.antt =====
-- PaintItem.h: serialize and deserialize of CTextItem.
use shared_painter.Common.{
  ℕ, [], ◌<◌, ◌≤◌, ◌^◌, ◌≡◌, Bool, true, List, ◌++◌, length, some, ok, if◌then◌else◌,
}
use shared_painter.Wire.{Reader, read_int16, read_string16, ◌>>=◌, done}
use shared_painter.Wire.Bytes.{word_bytes}
use shared_painter.Wire.Write.{str16, emit_lem, Writes-seq, Writes-string16, Writes-int16}
use shared_painter.Wire.Read.{Reads, Reads-string16, Reads-int16, Reads-bind, Reads-map}
use shared_painter.Builder.{read_flag}
use shared_painter.Builder.Carries.{Writes-flag, Reads-flag}
use shared_painter.Item.{
  LineItem, serialize_line, deserialize_line, TextItem, serialize_text, deserialize_text, read_text,
}
use shared_painter.Item.RoundTrip.{
  IsPlain, IsDrawn, data_bytes, Writes-item_data, behind-Reads, deserialize_line-serialize_line,
}

-- The words are of 16 bits, and the texts of up to 65535 bytes.
pub record IsWritten (i : TextItem) : Type 0 where
  pub plain : IsPlain i.base
  pub red_fits : i.red < 2 ^ 16
  pub green_fits : i.green < 2 ^ 16
  pub blue_fits : i.blue < 2 ^ 16
  pub alpha_fits : i.alpha < 2 ^ 16
  pub pixel_size_fits : i.pixel_size < 2 ^ 16
  pub text_fits : length i.text ≤ 0xffff
  pub family_fits : length i.family ≤ 0xffff

-- Whatever the item holds that the bytes are read into.
deserialize_text-serialize_text :
    (old i : TextItem)
    → IsWritten i
    → (bs : List ℕ) × (serialize_text i ≡ ok bs) × (deserialize_text old bs ≡ ok (some i))
unfolding serialize_text deserialize_text
deserialize_text-serialize_text old i h = (
  data_bytes i.base ++ rest,
  emit_lem (
      Writes-seq (Writes-item_data i.base h.plain.owner_short) (
        Writes-seq (Writes-int16 i.red true) (
          Writes-seq (Writes-int16 i.green true) (
            Writes-seq (Writes-int16 i.blue true) (
              Writes-seq (Writes-int16 i.alpha true) (
                Writes-seq (Writes-int16 i.pixel_size true) (
                  Writes-seq (Writes-string16 i.text true h.text_fits) (
                    Writes-seq (Writes-string16 i.family true h.family_fits)
                      (Writes-flag i.bold))))))))),
  behind-Reads read_text i.base old.base i rest h.plain reads,
)
  where
    rest : List ℕ
    rest =
        word_bytes 2 true i.red
        ++ (word_bytes 2 true i.green
            ++ (word_bytes 2 true i.blue
                ++ (word_bytes 2 true i.alpha
                    ++ (word_bytes 2 true i.pixel_size
                        ++ (str16 true i.text
                            ++ (str16 true i.family
                                ++ word_bytes 1 true (if i.bold then 1 else 0)))))))

    written : ℕ → ℕ → ℕ → ℕ → ℕ → List ℕ → List ℕ → Bool → TextItem
    written r g b a s t f o = record {
      base = i.base;
      red = r;
      green = g;
      blue = b;
      alpha = a;
      pixel_size = s;
      text = t;
      family = f;
      bold = o;
    }

    texts : (List ℕ → List ℕ → Bool → TextItem) → Reader TextItem
    texts k = do t ← read_string16 true; f ← read_string16 true; o ← read_flag; done (k t f o)

    Reads-texts :
        Reads (texts (written i.red i.green i.blue i.alpha i.pixel_size)) i (
          str16 true i.text ++ (str16 true i.family ++ word_bytes 1 true (if i.bold then 1 else 0)))
    Reads-texts =
        Reads-bind
          (λ t. do
            f ← read_string16 true
            o ← read_flag
            done (written i.red i.green i.blue i.alpha i.pixel_size t f o))
          (Reads-string16 i.text true h.text_fits)
          (Reads-bind
            (λ f. do
              o ← read_flag
              done (written i.red i.green i.blue i.alpha i.pixel_size i.text f o))
            (Reads-string16 i.family true h.family_fits)
            (Reads-map (written i.red i.green i.blue i.alpha i.pixel_size i.text i.family)
              (Reads-flag i.bold)))

    reads : Reads (read_text i.base) i rest
    reads =
        Reads-bind
          (λ r. do
            g ← read_int16 true
            b ← read_int16 true
            a ← read_int16 true
            s ← read_int16 true
            texts (written r g b a s))
          (Reads-int16 i.red true h.red_fits)
          (Reads-bind
            (λ g. do
              b ← read_int16 true
              a ← read_int16 true
              s ← read_int16 true
              texts (written i.red g b a s))
            (Reads-int16 i.green true h.green_fits)
            (Reads-bind
              (λ b. do
                a ← read_int16 true
                s ← read_int16 true
                texts (written i.red i.green b a s))
              (Reads-int16 i.blue true h.blue_fits)
              (Reads-bind (λ a. do s ← read_int16 true; texts (written i.red i.green i.blue a s))
                (Reads-int16 i.alpha true h.alpha_fits)
                (Reads-bind (λ s. texts (written i.red i.green i.blue i.alpha s))
                  (Reads-int16 i.pixel_size true h.pixel_size_fits) Reads-texts))))

-- A line of fewer than 65536 points, and a text of up to 65535 bytes, come back as they were
-- serialized, where their owners' names are short and their colours and sizes 16-bit words; the line
-- from an item with no points, and the text from any item.
pub items-round_trip :
    (old_line line : LineItem) (old_text text : TextItem)
    → IsDrawn line
    → old_line.list_list ≡ []
    → IsWritten text
    → ((bs : List ℕ) × (serialize_line line ≡ ok bs)
        × (deserialize_line old_line bs ≡ ok (some line)))
      × ((bs : List ℕ) × (serialize_text text ≡ ok bs)
          × (deserialize_text old_text bs ≡ ok (some text)))
items-round_trip old_line line old_text text hl fresh ht = (
  deserialize_line-serialize_line old_line line hl fresh,
  deserialize_text-serialize_text old_text text ht,
)
