-- ===== src/Builder/Window.antt =====
-- SharedPainter/WindowPacketBuilder.h: how windows and the canvas stand. An int is its 32-bit
-- pattern, of which the low 16 bits are written.
use shared_painter.Common.{
  ℕ, zero, suc, ◌%◌, ◌^◌, ◌<◌, ◌≡◌, refl, arith, true, List, [], ◌∷◌, ◌++◌, map, length, Option,
  none, Outcome, ok,
}
use shared_painter.Wire.{Writer, Reader, write_int16, read_int16, ◌⨟◌, ◌>>=◌, done}
use shared_painter.Wire.Bytes.{word_bytes}
use shared_painter.Wire.Write.{Writes, Writes-seq, Writes-int16, Writes-none}
use shared_painter.Wire.Read.{Reads, Reads-bind, Reads-map, Reads-done, Reads-int16}
use shared_painter.Wire.Bounds.{Stays, Stays-bind, Stays-done, Stays-int16}
use shared_painter.Builder.{text_or_empty, send, parse_with}
use shared_painter.Builder.Carries.{IsShort, Carries, send-Carries, parse_with-total, Reads-low16}

abbrev pub write_pair : ℕ → ℕ → Writer
write_pair a b = write_int16 a true ⨟ write_int16 b true

abbrev pub read_pair : Reader (ℕ × ℕ)
read_pair = do a ← read_int16 true; b ← read_int16 true; done (a, b)

unfoldable pub make_change_canvas_scroll_pos : ℕ → ℕ → Option (List ℕ) → Outcome (List ℕ)
unfolding send ◌⨟◌ write_int16
make_change_canvas_scroll_pos scroll_h scroll_v target =
    send 27 (write_pair scroll_h scroll_v) none target

unfoldable pub parse_change_canvas_scroll_pos : List ℕ → Outcome (Option (ℕ × ℕ))
unfolding parse_with ◌>>=◌ done read_int16
parse_change_canvas_scroll_pos = parse_with read_pair

unfoldable pub make_resize_canvas : ℕ → ℕ → Option (List ℕ) → Outcome (List ℕ)
unfolding send ◌⨟◌ write_int16
make_resize_canvas width height target = send 25 (write_pair width height) none target

unfoldable pub parse_resize_canvas : List ℕ → Outcome (Option (ℕ × ℕ))
unfolding parse_with ◌>>=◌ done read_int16
parse_resize_canvas = parse_with read_pair

unfoldable pub make_resize_main_window : ℕ → ℕ → Option (List ℕ) → Outcome (List ℕ)
unfolding send ◌⨟◌ write_int16
make_resize_main_window width height target = send 24 (write_pair width height) none target

unfoldable pub parse_resize_main_window : List ℕ → Outcome (Option (ℕ × ℕ))
unfolding parse_with ◌>>=◌ done read_int16
parse_resize_main_window = parse_with read_pair

-- The loop over `sizes`.
unfoldable pub write_sizes : List ℕ → Writer
unfolding ◌⨟◌ write_int16
write_sizes [] buf pos = ok (buf, 0)
write_sizes (v ∷ vs) buf pos = (write_int16 v true ⨟ write_sizes vs) buf pos

unfoldable pub read_sizes : ℕ → Reader (List ℕ)
unfolding ◌>>=◌ done read_int16
read_sizes zero = done []
read_sizes (suc n) = do v ← read_int16 true; vs ← read_sizes n; done (v ∷ vs)

unfoldable pub make_resize_window_splitter : List ℕ → Option (List ℕ) → Outcome (List ℕ)
unfolding send ◌⨟◌ write_int16 write_sizes
make_resize_window_splitter sizes target =
    send 26 (write_int16 (length sizes) true ⨟ write_sizes sizes) none target

unfoldable pub parse_resize_window_splitter : List ℕ → Outcome (Option (List ℕ))
unfolding parse_with ◌>>=◌ done read_int16 read_sizes
parse_resize_window_splitter = parse_with (read_int16 true >>= read_sizes)

Reads-pair :
    {a b : ℕ} {xs ys : List ℕ}
    → Reads (read_int16 true) a xs
    → Reads (read_int16 true) b ys
    → Reads read_pair (a, b) (xs ++ ys)
Reads-pair {a} ha hb =
    Reads-bind (λ x. do y ← read_int16 true; done (x, y)) ha (Reads-map (λ y. (a, y)) hb)

Writes-pair : (a b : ℕ) → Writes (write_pair a b) (word_bytes 2 true a ++ word_bytes 2 true b)
Writes-pair a b = Writes-seq (Writes-int16 a true) (Writes-int16 b true)

-- The bytes of the sizes.
abbrev sizes_bytes : List ℕ → List ℕ
sizes_bytes [] = []
sizes_bytes (v ∷ vs) = word_bytes 2 true v ++ sizes_bytes vs

abbrev low16 : ℕ → ℕ
low16 v = v % 2 ^ 16

Writes-sizes : (vs : List ℕ) → Writes (write_sizes vs) (sizes_bytes vs)
unfolding write_sizes
Writes-sizes [] = Writes-none (λ buf. refl)
Writes-sizes (v ∷ vs) = record {
  appends = (Writes-seq (Writes-int16 v true) (Writes-sizes vs)).appends;
}

Reads-sizes : (vs : List ℕ) → Reads (read_sizes (length vs)) (map low16 vs) (sizes_bytes vs)
unfolding read_sizes
Reads-sizes [] = Reads-done []
Reads-sizes (v ∷ vs) =
    Reads-bind (λ x. do xs ← read_sizes (length vs); done (x ∷ xs)) (Reads-low16 v)
      (Reads-map (λ xs. low16 v ∷ xs) (Reads-sizes vs))

Stays-pair : Stays read_pair
Stays-pair =
    Stays-bind _ (Stays-int16 true) (λ a. Stays-bind _ (Stays-int16 true) (λ b. Stays-done (a, b)))

Stays-sizes : (n : ℕ) → Stays (read_sizes n)
unfolding read_sizes
Stays-sizes zero = Stays-done []
Stays-sizes (suc n) =
    Stays-bind _ (Stays-int16 true) (λ v. Stays-bind _ (Stays-sizes n) (λ vs. Stays-done (v ∷ vs)))

-- The scroll positions, of 16 bits each, come back as they were sent.
change_canvas_scroll_pos-Carries :
    (h v : ℕ) (target : Option (List ℕ))
    → h < 2 ^ 16
    → v < 2 ^ 16
    → IsShort (text_or_empty target)
    → Carries
        (make_change_canvas_scroll_pos h v target)
        27
        []
        (text_or_empty target)
        parse_change_canvas_scroll_pos
        (h, v)
unfolding make_change_canvas_scroll_pos parse_change_canvas_scroll_pos
change_canvas_scroll_pos-Carries h v target hh hv ht =
    send-Carries 27 none target (omega arith) ht (Writes-pair h v)
      (Reads-pair (Reads-int16 h true hh) (Reads-int16 v true hv))

-- The sizes of the canvas and of the main window come back modulo 2 ^ 16, so sizes of up to 65535
-- come back as they were sent.
resize-Carries :
    (width height : ℕ) (target : Option (List ℕ))
    → IsShort (text_or_empty target)
    → Carries
        (make_resize_canvas width height target)
        25
        []
        (text_or_empty target)
        parse_resize_canvas
        (width % 2 ^ 16, height % 2 ^ 16)
      × Carries
          (make_resize_main_window width height target)
          24
          []
          (text_or_empty target)
          parse_resize_main_window
          (width % 2 ^ 16, height % 2 ^ 16)
unfolding make_resize_canvas parse_resize_canvas make_resize_main_window parse_resize_main_window
resize-Carries width height target ht = (
  send-Carries 25 none target (omega arith) ht (Writes-pair width height)
      (Reads-pair (Reads-low16 width) (Reads-low16 height)),
  send-Carries 24 none target (omega arith) ht (Writes-pair width height)
      (Reads-pair (Reads-low16 width) (Reads-low16 height)),
)

-- Scroll positions of 16 bits come back as they were sent, and the sizes of the canvas and of the main
-- window modulo 2 ^ 16.
pub positions-Carries :
    (h v width height : ℕ) (target : Option (List ℕ))
    → h < 2 ^ 16
    → v < 2 ^ 16
    → IsShort (text_or_empty target)
    → Carries
        (make_change_canvas_scroll_pos h v target)
        27
        []
        (text_or_empty target)
        parse_change_canvas_scroll_pos
        (h, v)
      × Carries
          (make_resize_canvas width height target)
          25
          []
          (text_or_empty target)
          parse_resize_canvas
          (width % 2 ^ 16, height % 2 ^ 16)
      × Carries
          (make_resize_main_window width height target)
          24
          []
          (text_or_empty target)
          parse_resize_main_window
          (width % 2 ^ 16, height % 2 ^ 16)
positions-Carries h v width height target hh hv ht = (
  change_canvas_scroll_pos-Carries h v target hh hv ht,
  (resize-Carries width height target ht).0,
  (resize-Carries width height target ht).1,
)

-- Fewer than 65536 splitter sizes come back in their order, each modulo 2 ^ 16.
pub resize_window_splitter-Carries :
    (sizes : List ℕ) (target : Option (List ℕ))
    → length sizes < 2 ^ 16
    → IsShort (text_or_empty target)
    → Carries
        (make_resize_window_splitter sizes target)
        26
        []
        (text_or_empty target)
        parse_resize_window_splitter
        (map (λ v. v % 2 ^ 16) sizes)
unfolding make_resize_window_splitter parse_resize_window_splitter
resize_window_splitter-Carries sizes target h ht =
    send-Carries 26 none target (omega arith) ht
      (Writes-seq (Writes-int16 (length sizes) true) (Writes-sizes sizes))
      (Reads-bind read_sizes (Reads-int16 (length sizes) true h) (Reads-sizes sizes))

-- On any bytes the four parses return, with the fields or with false.
pub window-total :
    (body : List ℕ)
    → ((a : Option (ℕ × ℕ)) × (parse_change_canvas_scroll_pos body ≡ ok a))
      × ((a : Option (ℕ × ℕ)) × (parse_resize_canvas body ≡ ok a))
      × ((a : Option (ℕ × ℕ)) × (parse_resize_main_window body ≡ ok a))
      × ((a : Option (List ℕ)) × (parse_resize_window_splitter body ≡ ok a))
unfolding parse_change_canvas_scroll_pos parse_resize_canvas parse_resize_main_window
    parse_resize_window_splitter
window-total body = (
  parse_with-total Stays-pair body,
  parse_with-total Stays-pair body,
  parse_with-total Stays-pair body,
  parse_with-total (Stays-bind read_sizes (Stays-int16 true) Stays-sizes) body,
)
