-- ===== src/Common/Maps.antt =====
-- Lemmas on the maps of Texts: an overwritten entry.
use Prim.Native.Nat.{ℕ}
use mathlib.Core.Path.{◌≡◌, refl, sym, subst, ◌∙◌}
use mathlib.Core.Bool.{true, false}
use mathlib.Core.Option.{some}
use mathlib.Core.List.{List, [], ◌∷◌}
use mathlib.Core.Logic.{inl, inr}
use native.Mathlib.Omega.{arith}
use shared_painter.Common.Tests.{if◌then◌else◌, Bool-cases}
use shared_painter.Common.Lists.{All}
use shared_painter.Common.Texts.{
  same_text, same_text_iff, same_text_self, Map, find, assign, place, All-place, IsMap,
}

module _ {A : Type 0} where
  pub find-assign :
      (k j : List ℕ) (v : A) (m : Map A) → same_text k j ≡ false → find j (assign k v m) ≡ find j m
  unfolding find assign
  find-assign k j v [] h = refl
  find-assign k j v ((i, w) ∷ m) h =
      ground
        (arith, h, find-assign k j v m h, same_text_iff i k, same_text_iff i j, same_text_iff k j)

  pub find-assigned :
      (k : List ℕ) (v w : A) (m : Map A) → find k m ≡ some w → find k (assign k v m) ≡ some v
  unfolding find assign
  find-assigned k v w [] h = cc
  find-assigned k v w ((i, x) ∷ m) h = elim (Bool-cases (same_text i k)) [
    | inl same ↦ rw same refl
    | inr other ↦
        rw other
          (find-assigned k v w m (subst (λ b. (if b then some x else find k m) ≡ some w) other h))
  ]

  -- What holds of each entry with another key still holds.
  pub All-assign :
      (P : List ℕ × A → Type 0) (k : List ℕ) (v : A) (m : Map A)
      → All (λ e. same_text k e.0 ≡ false → P e) m
      → All (λ e. same_text k e.0 ≡ false → P e) (assign k v m)
  unfolding assign
  All-assign P k v [] h = tt
  All-assign P k v ((i, w) ∷ m) h = (
    elim (Bool-cases (same_text i k)) [
      | inl same ↦ λ e.
          let e' : same_text k i ≡ true =
            (same_text_iff k i).1 (sym ((same_text_iff i k).0 same)) in
          cc
      | inr other ↦ rw other h.0
    ],
    All-assign P k v m h.1,
  )

  pub All-place-others :
      (P : List ℕ × A → Type 0) (k : List ℕ) (v : A) (m : Map A)
      → All (λ e. same_text k e.0 ≡ false → P e) m
      → All (λ e. same_text k e.0 ≡ false → P e) (place k v m)
  All-place-others P k v m h =
      All-place (λ e. same_text k e.0 ≡ false → P e) k v m
        (λ e. let e' : same_text k k ≡ true = same_text_self k in cc) h

  pub IsMap-assign :
      (k : List ℕ) (v w : A) (m : Map A) → find k m ≡ some w → IsMap m → IsMap (assign k v m)
  unfolding assign
  IsMap-assign k v w m found h = go m h
    where
      reversed : (i : List ℕ) → same_text i k ≡ false → same_text k i ≡ false
      reversed i other = ground (arith, other, same_text_iff i k, same_text_iff k i)

      go :
          (l : Map A)
          → All (λ e. find e.0 m ≡ some e.1) l
          → All (λ e. find e.0 (assign k v m) ≡ some e.1) (assign k v l)
      go [] hl = tt
      go ((i, x) ∷ l) hl = (
        elim (Bool-cases (same_text i k)) [
          | inl same ↦ rw same (rw ((same_text_iff i k).0 same) (find-assigned k v w m found))
          | inr other ↦ rw other (find-assign k i v m (reversed i other) ∙ hl.0)
        ],
        go l hl.1,
      )
