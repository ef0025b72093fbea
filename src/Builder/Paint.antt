-- ===== src/Builder/Paint.antt =====
-- SharedPainter/PaintPacketBuilder.h: the messages about the background that carry no item. An int
-- is its 32-bit pattern, of which the low 16 bits are written.
use shared_painter.Common.{ℕ, ◌%◌, ◌^◌, ◌≡◌, arith, true, List, [], Option, none, Outcome, ok}
use shared_painter.Wire.{Reader, write_int16, read_int16, ◌⨟◌, ◌>>=◌, done}
use shared_painter.Wire.Write.{Writes-seq, Writes-int16}
use shared_painter.Wire.Read.{Reads-bind, Reads-map}
use shared_painter.Wire.Bounds.{Stays, Stays-bind, Stays-map, Stays-int16}
use shared_painter.Builder.{text_or_empty, send, parse_with}
use shared_painter.Builder.Carries.{IsShort, Carries, send-Carries, parse_with-total, Reads-low16}

unfoldable pub make_set_background_grid_line : ℕ → Option (List ℕ) → Outcome (List ℕ)
unfolding send ◌⨟◌ write_int16
make_set_background_grid_line size target = send 19 (write_int16 size true) none target

abbrev read_set_background_grid_line : Reader ℕ
read_set_background_grid_line = do size ← read_int16 true; done size

unfoldable pub parse_set_background_grid_line : List ℕ → Outcome (Option ℕ)
unfolding parse_with ◌>>=◌ done read_int16
parse_set_background_grid_line = parse_with read_set_background_grid_line

unfoldable pub make_set_background_color : ℕ → ℕ → ℕ → ℕ → Option (List ℕ) → Outcome (List ℕ)
unfolding send ◌⨟◌ write_int16
make_set_background_color r g b a target =
    send 18 (write_int16 r true ⨟ write_int16 g true ⨟ write_int16 b true ⨟ write_int16 a true) none
      target

abbrev read_set_background_color : Reader (ℕ × ℕ × ℕ × ℕ)
read_set_background_color = do
  r ← read_int16 true
  g ← read_int16 true
  b ← read_int16 true
  a ← read_int16 true
  done (r, g, b, a)

unfoldable pub parse_set_background_color : List ℕ → Outcome (Option (ℕ × ℕ × ℕ × ℕ))
unfolding parse_with ◌>>=◌ done read_int16
parse_set_background_color = parse_with read_set_background_color

Stays-set_background_grid_line : Stays read_set_background_grid_line
Stays-set_background_grid_line = Stays-map (λ size. size) (Stays-int16 true)

Stays-set_background_color : Stays read_set_background_color
Stays-set_background_color =
    Stays-bind
      (λ r. do g ← read_int16 true; b ← read_int16 true; a ← read_int16 true; done (r, g, b, a))
      (Stays-int16 true)
      (λ r.
        Stays-bind (λ g. do b ← read_int16 true; a ← read_int16 true; done (r, g, b, a))
          (Stays-int16 true)
          (λ g.
            Stays-bind (λ b. do a ← read_int16 true; done (r, g, b, a)) (Stays-int16 true)
              (λ b. Stays-map (λ a. (r, g, b, a)) (Stays-int16 true))))

-- The size of the grid comes back modulo 2 ^ 16.
pub set_background_grid_line-Carries :
    (size : ℕ) (target : Option (List ℕ))
    → IsShort (text_or_empty target)
    → Carries
        (make_set_background_grid_line size target)
        19
        []
        (text_or_empty target)
        parse_set_background_grid_line
        (size % 2 ^ 16)
unfolding make_set_background_grid_line parse_set_background_grid_line
set_background_grid_line-Carries size target h_target =
    send-Carries 19 none target (omega arith) h_target (Writes-int16 size true)
      (Reads-map (λ x. x) (Reads-low16 size))

-- The four parts of the colour come back in their order, each modulo 2 ^ 16.
pub set_background_color-Carries :
    (r : ℕ) (g : ℕ) (b : ℕ) (a : ℕ) (target : Option (List ℕ))
    → IsShort (text_or_empty target)
    → Carries
        (make_set_background_color r g b a target)
        18
        []
        (text_or_empty target)
        parse_set_background_color
        (r % 2 ^ 16, g % 2 ^ 16, b % 2 ^ 16, a % 2 ^ 16)
unfolding make_set_background_color parse_set_background_color
set_background_color-Carries r g b a target h_target =
    send-Carries 18 none target (omega arith) h_target
      (Writes-seq (Writes-int16 r true)
        (Writes-seq (Writes-int16 g true) (Writes-seq (Writes-int16 b true) (Writes-int16 a true))))
      (Reads-bind
        (λ x. do
          y0 ← read_int16 true
          y1 ← read_int16 true
          y2 ← read_int16 true
          done (x, y0, y1, y2))
        (Reads-low16 r)
        (Reads-bind
          (λ x. do y0 ← read_int16 true; y1 ← read_int16 true; done (r % 2 ^ 16, x, y0, y1))
          (Reads-low16 g)
          (Reads-bind (λ x. do y0 ← read_int16 true; done (r % 2 ^ 16, g % 2 ^ 16, x, y0))
            (Reads-low16 b)
            (Reads-map (λ x. (r % 2 ^ 16, g % 2 ^ 16, b % 2 ^ 16, x)) (Reads-low16 a)))))

-- On any bytes the two parses return, with the fields or with false.
pub paint-total :
    (body : List ℕ)
    → ((a : Option ℕ) × (parse_set_background_grid_line body ≡ ok a))
      × ((a : Option (ℕ × ℕ × ℕ × ℕ)) × (parse_set_background_color body ≡ ok a))
unfolding parse_set_background_grid_line parse_set_background_color
paint-total body = (
  parse_with-total Stays-set_background_grid_line body,
  parse_with-total Stays-set_background_color body,
)
