-- ===== src/Buffer/Sizes.antt =====
-- PacketBuffer.cpp, rewind and fastforward with their `int`: the position is a signed 32-bit word,
-- given by its bit pattern, and sizes are 64-bit words.
use shared_painter.Common.{
  ℕ, ◌+◌, ◌-◌, ◌%◌, ◌^◌, ◌<◌, ◌≤◌, ◌≡◌, refl, arith, Bool, true, false, ltb→lt, lt→ltb, le→ltb,
  length, ltb, if◌then◌else◌, throw, ok, packet_error, Bool-cases, inl, inr,
}
use shared_painter.Buffer.{Buffer, Method, rewind, fast_forward}

-- The bit pattern of the `int` that a 64-bit word is converted to.
abbrev pub to_int : ℕ → ℕ
to_int n = n % 2 ^ 32

-- `a < b` for patterns of an `int`.
abbrev pub less_int : ℕ → ℕ → Bool
less_int a b = ltb ((a + 2 ^ 31) % 2 ^ 32) ((b + 2 ^ 31) % 2 ^ 32)

unfoldable pub fast_forward_int : ℕ → Method (Unit {0})
fast_forward_int size b =
    let temp = to_int (b.read_pos + size) in
    if less_int (to_int (length b.bytes)) temp
    then (throw packet_error, b)
    else (ok tt, record b { read_pos = temp })

-- `readPos_ - size` wraps in 64 bits before it is an `int`.
unfoldable pub rewind_int : ℕ → Method (Unit {0})
rewind_int size b =
    let temp = to_int (b.read_pos + (2 ^ 64 - size)) in
    if less_int temp 0 then (throw packet_error, b) else (ok tt, record b { read_pos = temp })

small : (n : ℕ) → n < 2 ^ 31 → to_int n ≡ n
small n h = omega arith

shifted : (n : ℕ) → n < 2 ^ 31 → (n + 2 ^ 31) % 2 ^ 32 ≡ n + 2 ^ 31
shifted n h = omega arith

less_int_small : (a b : ℕ) → a < 2 ^ 31 → b < 2 ^ 31 → less_int a b ≡ ltb a b
less_int_small a b h k = rw (shifted a h, shifted b k) (ground arith)

-- A difference that would be below zero has the pattern of a negative number.
negative : (a n : ℕ) → a < n → n < 2 ^ 31 → less_int (to_int (a + (2 ^ 64 - n))) 0 ≡ true
negative a n h k = lt→ltb _ _ (omega arith)

difference : (a n : ℕ) → n ≤ a → a < 2 ^ 31 → to_int (a + (2 ^ 64 - n)) ≡ a - n
difference a n h k = omega arith

unsigned : (a n : ℕ) → n ≤ a → a < 2 ^ 31 → less_int (a - n) 0 ≡ false
unsigned a n h k = le→ltb _ _ (omega arith)

ltb-false : (a n : ℕ) → ltb a n ≡ false → n ≤ a
ltb-false a n e = ground arith

-- Below 2 ^ 31 bytes, the two functions of the `int` move the position as those of the numbers do.
pub fast_forward_int-rewind_int :
    (size : ℕ) (b : Buffer)
    → length b.bytes < 2 ^ 31
    → b.read_pos + size < 2 ^ 31
    → (fast_forward_int size b ≡ fast_forward size b) × (rewind_int size b ≡ rewind size b)
unfolding fast_forward_int rewind_int fast_forward rewind
fast_forward_int-rewind_int size b h k = (
  rw (small (b.read_pos + size) k, small (length b.bytes) h, less_int_small _ _ h k) refl,
  elim (Bool-cases (ltb b.read_pos size)) [
    | inl more ↦ rw (more, negative b.read_pos size (ltb→lt _ _ more) (omega arith)) refl
    | inr fits ↦
        let least : size ≤ b.read_pos = ltb-false b.read_pos size fits in
        rw
          (
            fits,
            difference b.read_pos size least (omega arith),
            unsigned b.read_pos size least (omega arith),
          )
          refl
  ],
)
