-- ===== src/Builder/Backgrounds.antt =====
-- SharedPainter/PaintPacketBuilder.h: CSetBackgroundImage, CClearBackground and CClearScreen, and the
-- messages about the background together.
use shared_painter.Common.{
  ℕ, ◌%◌, ◌^◌, ◌≤◌, ◌≡◌, refl, arith, List, [], length, Option, none, Outcome, ok, and_then, catch,
}
use shared_painter.Builder.{make_packet, text_or_empty, make_packet-frame, frame}
use shared_painter.Builder.Carries.{IsShort, Carries}
use shared_painter.Builder.Paint.{
  make_set_background_grid_line, parse_set_background_grid_line, set_background_grid_line-Carries,
  make_set_background_color, parse_set_background_color, set_background_color-Carries,
}
use shared_painter.Item.{ImageItem, new_item_data, serialize_image, deserialize_image}
use shared_painter.Item.RoundTrip.{IsPlain, deserialize_image-serialize_image}

-- The data are made before the `try`.
unfoldable pub make_set_background_image : ImageItem → Option (List ℕ) → Outcome (List ℕ)
unfolding serialize_image make_packet
make_set_background_image item target =
    and_then (serialize_image item) (λ data₀. catch (make_packet 17 data₀ none target) [])

unfoldable pub parse_set_background_image : List ℕ → Outcome (Option ImageItem)
unfolding deserialize_image
parse_set_background_image body =
    catch (deserialize_image (record { base = new_item_data; byte_array = [] }) body) none

unfoldable pub make_clear_background : Outcome (List ℕ)
unfolding make_packet
make_clear_background = catch (make_packet 20 [] none none) []

unfoldable pub make_clear_screen : Outcome (List ℕ)
unfolding make_packet
make_clear_screen = catch (make_packet 21 [] none none) []

set_background_image-Carries :
    (item : ImageItem) (target : Option (List ℕ))
    → IsPlain item.base
    → length item.byte_array ≤ 0xffff_ffff
    → IsShort (text_or_empty target)
    → Carries
        (make_set_background_image item target)
        17
        []
        (text_or_empty target)
        parse_set_background_image
        item
unfolding make_set_background_image parse_set_background_image
set_background_image-Carries item target h short ht =
    let (bs, made, read) =
      deserialize_image-serialize_image (record { base = new_item_data; byte_array = [] }) item h
        short in
    record {
      body = bs;
      makes = rw (made, make_packet-frame 17 bs none target (omega arith) ht) refl;
      parses = rw read refl;
    }

-- The size of the grid and the parts of the colour come back modulo 2 ^ 16, an image of up to 2 ^ 32 -
-- 1 bytes comes back with its data as it was sent, and the two messages that clear have no body.
pub backgrounds-Carries :
    (size r g b a : ℕ) (item : ImageItem) (target : Option (List ℕ))
    → IsPlain item.base
    → length item.byte_array ≤ 0xffff_ffff
    → IsShort (text_or_empty target)
    → Carries
        (make_set_background_grid_line size target)
        19
        []
        (text_or_empty target)
        parse_set_background_grid_line
        (size % 2 ^ 16)
      × Carries
          (make_set_background_color r g b a target)
          18
          []
          (text_or_empty target)
          parse_set_background_color
          (r % 2 ^ 16, g % 2 ^ 16, b % 2 ^ 16, a % 2 ^ 16)
      × Carries
          (make_set_background_image item target)
          17
          []
          (text_or_empty target)
          parse_set_background_image
          item
      × (make_clear_background ≡ ok (frame 20 [] [] []))
      × (make_clear_screen ≡ ok (frame 21 [] [] []))
unfolding make_clear_background make_clear_screen
backgrounds-Carries size r g b a item target h short ht = (
  set_background_grid_line-Carries size target ht,
  set_background_color-Carries r g b a target ht,
  set_background_image-Carries item target h short ht,
  rw (make_packet-frame 20 [] none none (omega arith) (omega arith)) refl,
  rw (make_packet-frame 21 [] none none (omega arith) (omega arith)) refl,
)
