-- ===== src/Wire/Bytes.antt =====
-- Words as bytes: `word_bytes k le v` are the k bytes of v, lowest first if `le`.
use shared_painter.Common.{
  ℕ, zero, suc, ◌+◌, ◌*◌, ◌/◌, ◌%◌, ◌^◌, ◌<◌, ◌≡◌, refl, ap, ap₂, ◌∙◌, arith, Bool, true, false,
  List, [], ◌∷◌, length, length-append, if◌then◌else◌,
}
use mathlib.Core.List.{reverse, reverse-reverse, reverse-cons}

unfoldable pub le_bytes : ℕ → ℕ → List ℕ
le_bytes zero v = []
le_bytes (suc k) v = (v % 256) ∷ le_bytes k (v / 256)

unfoldable pub le_value : List ℕ → ℕ
le_value [] = 0
le_value (b ∷ bs) = b + 256 * le_value bs

-- `htonl` and its like reverse the bytes on a little-endian host.
unfoldable pub word_bytes : ℕ → Bool → ℕ → List ℕ
unfolding le_bytes
word_bytes k le v = if le then le_bytes k v else reverse (le_bytes k v)

unfoldable pub word_value : Bool → List ℕ → ℕ
unfolding le_value
word_value le bs = if le then le_value bs else le_value (reverse bs)

length-le_bytes : (k v : ℕ) → length (le_bytes k v) ≡ k
unfolding le_bytes
length-le_bytes zero v = refl
length-le_bytes (suc k) v = ap suc (length-le_bytes k (v / 256))

length-reverse : (xs : List ℕ) → length (reverse xs) ≡ length xs
length-reverse [] = refl
length-reverse (x ∷ xs) =
    omega
      (arith, ap length (reverse-cons x xs), length-append (reverse xs) (x ∷ []), length-reverse xs)

pub length-word_bytes : (k : ℕ) (le : Bool) (v : ℕ) → length (word_bytes k le v) ≡ k
unfolding word_bytes
length-word_bytes k true v = length-le_bytes k v
length-word_bytes k false v = length-reverse (le_bytes k v) ∙ length-le_bytes k v

le_value-le_bytes : (k v : ℕ) → v < 256 ^ k → le_value (le_bytes k v) ≡ v
unfolding le_bytes le_value
le_value-le_bytes zero v h = omega arith
le_value-le_bytes (suc k) v h = omega (arith, le_value-le_bytes k (v / 256) (shrink k v h))
  where
    shrink : (k v : ℕ) → v < 256 ^ suc k → v / 256 < 256 ^ k
    shrink k v h = omega arith

-- A word that fits its bytes is read back, in either byte order.
pub word_value-word_bytes :
    (k : ℕ) (le : Bool) (v : ℕ) → v < 256 ^ k → word_value le (word_bytes k le v) ≡ v
unfolding word_bytes word_value
word_value-word_bytes k true v h = le_value-le_bytes k v h
word_value-word_bytes k false v h =
    ap le_value (reverse-reverse (le_bytes k v)) ∙ le_value-le_bytes k v h

-- The two bytes of a number are those of its low 16 bits.
pub word_bytes_low16 : (v : ℕ) → word_bytes 2 true (v % 2 ^ 16) ≡ word_bytes 2 true v
unfolding word_bytes le_bytes
word_bytes_low16 v = ap₂ (λ a b. a ∷ (b ∷ [])) (omega arith) (omega arith)
