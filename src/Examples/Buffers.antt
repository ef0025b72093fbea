-- ===== src/Examples/Buffers.antt =====
-- The packet buffer at concrete bytes.
use shared_painter.Common.{◌<◌, ◌^◌, ◌≡◌, refl, arith, [], ◌∷◌, ok, throw, packet_error}
use shared_painter.Buffer
use shared_painter.Buffer.{Buffer}
use shared_painter.Buffer.Queue.{put, get, run, run_queue, run-run_queue, advance}
use shared_painter.Buffer.Words.{read_exactly-short, read_string-write_string}
use shared_painter.Buffer.Misuse.{
  read_string8-write_string8_mod, read_string32_value-write_string32,
}

-- Three bytes, of which the first was read.
abbrev three : Buffer
three = record { bytes = 7 ∷ 8 ∷ 9 ∷ []; read_pos = 1 }

-- Three bytes that were all read.
abbrev exhausted : Buffer
exhausted = record { bytes = 7 ∷ 8 ∷ 9 ∷ []; read_pos = 3 }

run-run_queue_example :
    run (put (1 ∷ 2 ∷ []) ∷ get 1 ∷ put (3 ∷ []) ∷ get 5 ∷ []) Buffer.empty
    ≡ ok (1 ∷ []) ∷ ok (2 ∷ 3 ∷ []) ∷ []
unfolding run_queue
run-run_queue_example = run-run_queue (put (1 ∷ 2 ∷ []) ∷ get 1 ∷ put (3 ∷ []) ∷ get 5 ∷ [])

read_exactly-short_example :
    Buffer.read_exactly 3 three
    ≡ (throw packet_error, record { bytes = 7 ∷ 8 ∷ 9 ∷ []; read_pos = 3 })
read_exactly-short_example = read_exactly-short three 3 (omega arith) (omega arith)

read_string-write_string_example :
    (2 < 2 ^ 8
      → Buffer.read_string8 (Buffer.write_string8 (1 ∷ 2 ∷ []) exhausted)
        ≡ (ok (1 ∷ 2 ∷ []), advance (Buffer.write_string8 (1 ∷ 2 ∷ []) exhausted) 3))
    × (2 < 2 ^ 16
        → Buffer.read_string16 (Buffer.write_string16 (1 ∷ 2 ∷ []) exhausted)
          ≡ (ok (1 ∷ 2 ∷ []), advance (Buffer.write_string16 (1 ∷ 2 ∷ []) exhausted) 4))
    × (Buffer.read_string32 (Buffer.write_string32 (1 ∷ 2 ∷ []) exhausted)
        ≡ (ok (1 ∷ 2 ∷ []), advance (Buffer.write_string32 (1 ∷ 2 ∷ []) exhausted) 6))
read_string-write_string_example =
    read_string-write_string exhausted (1 ∷ 2 ∷ []) (omega arith) refl (omega arith)

read_string8-write_string8_mod_example :
    (Buffer.read_string8 (Buffer.write_string8 (1 ∷ 2 ∷ []) exhausted)).0 ≡ ok (1 ∷ 2 ∷ [])
read_string8-write_string8_mod_example =
    read_string8-write_string8_mod exhausted (1 ∷ 2 ∷ []) (omega arith) refl

read_string32_value-write_string32_example :
    (Buffer.read_string32_value (Buffer.write_string32 (65 ∷ 66 ∷ []) exhausted)).0
    ≡ ok (0 ∷ 0 ∷ [])
read_string32_value-write_string32_example =
    read_string32_value-write_string32 exhausted (65 ∷ 66 ∷ []) (omega arith) refl (omega arith)
