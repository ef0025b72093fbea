-- ===== src/Common/Texts.antt =====
-- std::string as a key: equality, the order of std::map, and the map itself as its entries in order.
use Prim.Native.Nat.{ℕ}
use mathlib.Core.Path.{◌≡◌, refl, sym, ap, ap₂, subst, ◌∙◌}
use mathlib.Core.Bool.{Bool, true, false}
use mathlib.Core.Option.{Option, none, some}
use mathlib.Core.List.{List, [], ◌∷◌}
use mathlib.Core.Logic.{inl, inr, ◌↔◌}
use native.Mathlib.Omega.{arith}
use shared_painter.Common.Tests.{ltb, ◌==◌, ==_iff, ==_self, if◌then◌else◌, Bool-cases}
use shared_painter.Common.Lists.{All}

unfoldable pub same_text : List ℕ → List ℕ → Bool
same_text [] [] = true
same_text [] (y ∷ ys) = false
same_text (x ∷ xs) [] = false
same_text (x ∷ xs) (y ∷ ys) = let rest = same_text xs ys in if x == y then rest else false

-- Lexicographic, by bytes.
unfoldable pub less_text : List ℕ → List ℕ → Bool
less_text xs [] = false
less_text [] (y ∷ ys) = true
less_text (x ∷ xs) (y ∷ ys) =
    let rest = less_text xs ys in if ltb x y then true else if x == y then rest else false

pub same_text_self : (xs : List ℕ) → same_text xs xs ≡ true
unfolding same_text
same_text_self [] = refl
same_text_self (x ∷ xs) = rw (==_self x) (same_text_self xs)

pub same_text→≡ : (xs ys : List ℕ) → same_text xs ys ≡ true → xs ≡ ys
unfolding same_text
same_text→≡ [] [] e = refl
same_text→≡ [] (y ∷ ys) e = cc
same_text→≡ (x ∷ xs) [] e = cc
same_text→≡ (x ∷ xs) (y ∷ ys) e = elim (Bool-cases (x == y)) [
  | inl same ↦
      ap₂ (λ a b. a ∷ b) ((==_iff x y).0 same)
        (same_text→≡ xs ys (subst (λ b. (if b then same_text xs ys else false) ≡ true) same e))
  | inr other ↦
      let e' : false ≡ true = subst (λ b. (if b then same_text xs ys else false) ≡ true) other e in
      cc
]

pub same_text_iff : (xs ys : List ℕ) → (same_text xs ys ≡ true) ↔ (xs ≡ ys)
same_text_iff xs ys =
    (same_text→≡ xs ys, λ e. subst (λ t. same_text xs t ≡ true) e (same_text_self xs))

-- The entries of a std::map, in the order of their keys.
abbrev pub Map : Type 0 → Type 0
Map A = List (List ℕ × A)

module _ {A : Type 0} where
  unfoldable pub find : List ℕ → Map A → Option A
  find k [] = none
  find k ((j, v) ∷ m) = if same_text j k then some v else find k m

  -- The entry is placed before the first key that is greater.
  unfoldable pub place : List ℕ → A → Map A → Map A
  place k v [] = (k, v) ∷ []
  place k v ((j, w) ∷ m) =
      let rest = place k v m in if less_text k j then (k, v) ∷ (j, w) ∷ m else (j, w) ∷ rest

  unfoldable pub assign : List ℕ → A → Map A → Map A
  assign k v [] = []
  assign k v ((j, w) ∷ m) = (j, if same_text j k then v else w) ∷ assign k v m

  unfoldable pub erase : List ℕ → Map A → Map A
  erase k [] = []
  erase k ((j, v) ∷ m) = let rest = erase k m in if same_text j k then rest else (j, v) ∷ rest

  -- A key that is in the list of entries.
  pub find-place :
      (k j : List ℕ) (v : A) (m : Map A)
      → find k m ≡ none
      → find j (place k v m) ≡ (if same_text k j then some v else find j m)
  unfolding find place
  find-place k j v [] h = refl
  find-place k j v ((i, w) ∷ m) h =
      ground (arith, find-place k j v m, same_text_iff i k, same_text_iff i j, same_text_iff k j)

  pub find-erase :
      (k j : List ℕ) (m : Map A) → find j (erase k m) ≡ (if same_text k j then none else find j m)
  unfolding find erase
  find-erase k j [] = ground arith
  find-erase k j ((i, w) ∷ m) =
      ground (arith, find-erase k j m, same_text_iff i k, same_text_iff i j, same_text_iff k j)

  pub All-place :
      (P : List ℕ × A → Type 0) (k : List ℕ) (v : A) (m : Map A)
      → P (k, v)
      → All P m
      → All P (place k v m)
  unfolding place
  All-place P k v [] p h = (p, tt)
  All-place P k v ((j, w) ∷ m) p h = elim (Bool-cases (less_text k j)) [
    | inl low ↦ rw low (p, h)
    | inr high ↦ rw high (h.0, All-place P k v m p h.1)
  ]

  pub All-erase : (P : List ℕ × A → Type 0) (k : List ℕ) (m : Map A) → All P m → All P (erase k m)
  unfolding erase
  All-erase P k [] h = tt
  All-erase P k ((j, v) ∷ m) h = elim (Bool-cases (same_text j k)) [
    | inl same ↦ rw same (All-erase P k m h.1)
    | inr other ↦ rw other (h.0, All-erase P k m h.1)
  ]

  same_some : {a b : A} → some a ≡ some b → a ≡ b
  same_some e = cc

  pub All-find :
      (P : List ℕ × A → Type 0) (k : List ℕ) (m : Map A) (v : A)
      → All P m
      → find k m ≡ some v
      → P (k, v)
  unfolding find
  All-find P k [] v h e = cc
  All-find P k ((j, w) ∷ m) v h e = elim (Bool-cases (same_text j k)) [
    | inl same ↦
        subst (λ (t : List ℕ × A). P t)
          (ap₂ (λ (a : List ℕ) (b : A). (a, b)) ((same_text_iff j k).0 same)
            (same_some (subst (λ b. (if b then some w else find k m) ≡ some v) same e)))
          h.0
    | inr other ↦
        All-find P k m v h.1 (subst (λ b. (if b then some w else find k m) ≡ some v) other e)
  ]

  pub All-map :
      (P Q : List ℕ × A → Type 0) (m : Map A) → ((e : List ℕ × A) → P e → Q e) → All P m → All Q m
  All-map P Q [] f h = tt
  All-map P Q (e ∷ m) f h = (f e h.0, All-map P Q m f h.1)

  pub All-both :
      (P Q : List ℕ × A → Type 0) (m : Map A) → All P m → All Q m → All (λ e. P e × Q e) m
  All-both P Q [] h k = tt
  All-both P Q (e ∷ m) h k = ((h.0, k.0), All-both P Q m h.1 k.1)

  -- Each entry is the one that is found under its key, so no key stands twice.
  abbrev pub IsMap : Map A → Type 0
  IsMap m = All (λ e. find e.0 m ≡ some e.1) m

  erase-others : (k : List ℕ) (m : Map A) → All (λ e. same_text k e.0 ≡ false) (erase k m)
  unfolding erase
  erase-others k [] = tt
  erase-others k ((j, v) ∷ m) = elim (Bool-cases (same_text j k)) [
    | inl same ↦ rw same (erase-others k m)
    | inr other ↦
        rw other (ground (arith, other, same_text_iff k j, same_text_iff j k), erase-others k m)
  ]

  pub IsMap-erase : (k : List ℕ) (m : Map A) → IsMap m → IsMap (erase k m)
  IsMap-erase k m h =
      All-map (λ e. (find e.0 m ≡ some e.1) × (same_text k e.0 ≡ false))
        (λ e. find e.0 (erase k m) ≡ some e.1) (erase k m) (λ e p. find-erase k e.0 m ∙ rw p.1 p.0)
        (All-both (λ e. find e.0 m ≡ some e.1) (λ e. same_text k e.0 ≡ false) (erase k m)
          (All-erase (λ e. find e.0 m ≡ some e.1) k m h) (erase-others k m))

  pub IsMap-place :
      (k : List ℕ) (v : A) (m : Map A) → find k m ≡ none → IsMap m → IsMap (place k v m)
  IsMap-place k v m absent h =
      All-place (λ e. find e.0 (place k v m) ≡ some e.1) k v m
        (find-place k k v m absent ∙ rw (same_text_self k) refl)
        (All-map (λ e. find e.0 m ≡ some e.1) (λ e. find e.0 (place k v m) ≡ some e.1) m
          (λ e p. find-place k e.0 v m absent ∙ rw (apart e p) p) h)
    where
      apart : (e : List ℕ × A) → find e.0 m ≡ some e.1 → same_text k e.0 ≡ false
      apart e p = elim (Bool-cases (same_text k e.0)) [
        | inl same ↦
            let e' : none ≡ some e.1 =
              sym absent ∙ ap (λ t. find t m) ((same_text_iff k e.0).0 same) ∙ p in
            cc
        | inr other ↦ other
      ]
