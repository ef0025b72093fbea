-- ===== src/History/Items/Numbering.antt =====
-- SharedPaintCommandManager.h: generateItemId, for the items of one painter among those of all.
use shared_painter.Common.{
  ℕ, suc, ◌+◌, ◌%◌, ◌^◌, ◌<◌, ◌≤◌, ◌≡◌, refl, sym, ap, subst, ◌∙◌, arith, Bool, true, false,
  Bool-cases, inl, inr, List, ◌∷◌, length, Option, none, some, ◌==◌, ==_iff, if◌then◌else◌,
  same_text, same_text_self, find,
}
use shared_painter.History.Items.{
  Items, clear_history_item, generate_item_id, find_item, contains, insert_set, add_history_item,
  with_entry, add_history_item-free, add_history_item-taken,
}

-- Items come in from an empty history: those of `me` under generated ids, and those of others, under
-- any id. No item comes in twice.
pub data Adds (me : List ℕ) : Items → Type 0 where
  cleared : (items : Items) → Adds me (clear_history_item items)
  mine :
      {items : Items} (p : ℕ)
      → Adds me items
      → contains p items.set ≡ false
      → Adds me (add_history_item p me (generate_item_id items) items).1
  theirs :
      {items : Items} (p : ℕ) (owner : List ℕ) (k : ℕ)
      → Adds me items
      → contains p items.set ≡ false
      → same_text owner me ≡ false
      → Adds me (add_history_item p owner k items).1

-- Each item of `me` has an id of at most the size of the set.
IsNumbered : List ℕ → Items → Type 0
IsNumbered me items = (j q : ℕ) → find_item me j items ≡ some q → j ≤ length items.set

fresh :
    (me : List ℕ) (items : Items)
    → IsNumbered me items
    → length items.set + 1 < 2 ^ 32
    → find_item me (generate_item_id items) items ≡ none
unfolding IsNumbered generate_item_id
fresh me items h few = go (find_item me ((length items.set + 1) % 2 ^ 32) items) refl
  where
    go : (o : Option ℕ) → find_item me ((length items.set + 1) % 2 ^ 32) items ≡ o → o ≡ none
    go none e = refl
    go (some q) e = absurd (omega (arith, h ((length items.set + 1) % 2 ^ 32) q e, few))

new_length :
    (p : ℕ) (set : List ℕ) → contains p set ≡ false → length (insert_set p set) ≡ suc (length set)
new_length p set h = rw h refl

mine-IsNumbered :
    (me : List ℕ) (p : ℕ) (items : Items)
    → IsNumbered me items
    → length items.set + 1 < 2 ^ 32
    → contains p items.set ≡ false
    → IsNumbered me (add_history_item p me (generate_item_id items) items).1
unfolding IsNumbered generate_item_id
mine-IsNumbered me p items h few new j q found =
    let id : ℕ = (length items.set + 1) % 2 ^ 32 in
    let added = add_history_item-free p me id items (fresh me items h few) in
    let size : length (add_history_item p me id items).1.set ≡ suc (length items.set) =
      ap (λ s. length s) added.1 ∙ new_length p items.set new in
    let entry : with_entry me id p items me j ≡ some q = sym (added.2 me j) ∙ found in
    elim (Bool-cases (id == j)) [
      | inl same ↦ omega (arith, size, few, (==_iff id j).0 same)
      | inr other ↦
          let old : find_item me j items ≡ some q =
            subst (λ b. (if b then some p else find_item me j items) ≡ some q) other
              (subst
                (λ b.
                  (if b
                    then if id == j then some p else find_item me j items
                    else find_item me j items)
                  ≡ some q)
                (same_text_self me) entry) in
          omega (arith, size, h j q old)
    ]

theirs-IsNumbered :
    (me owner : List ℕ) (p k : ℕ) (items : Items)
    → IsNumbered me items
    → contains p items.set ≡ false
    → same_text owner me ≡ false
    → IsNumbered me (add_history_item p owner k items).1
unfolding IsNumbered
theirs-IsNumbered me owner p k items h new apart j q found = go (find_item owner k items) refl
  where
    go :
        (o : Option ℕ)
        → find_item owner k items ≡ o
        → j ≤ length (add_history_item p owner k items).1.set
    go none free =
        let added = add_history_item-free p owner k items free in
        let size : length (add_history_item p owner k items).1.set ≡ suc (length items.set) =
          ap (λ s. length s) added.1 ∙ new_length p items.set new in
        let old : find_item me j items ≡ some q =
          subst
            (λ b.
              (if b then if k == j then some p else find_item me j items else find_item me j items)
              ≡ some q)
            apart (sym (added.2 me j) ∙ found) in
        omega (arith, size, h j q old)
    go (some r) taken =
        let kept = add_history_item-taken p r owner k items taken in
        omega (arith, ap (λ s. length s) kept.1, h j q (sym (kept.2 me j) ∙ found))

grown :
    (p : ℕ) (owner : List ℕ) (k : ℕ) (items : Items)
    → length items.set ≤ length (add_history_item p owner k items).1.set
grown p owner k items = go (find_item owner k items) refl
  where
    larger : (b : Bool) → length items.set ≤ length (if b then items.set else p ∷ items.set)
    larger true = omega arith
    larger false = omega arith

    go :
        (o : Option ℕ)
        → find_item owner k items ≡ o
        → length items.set ≤ length (add_history_item p owner k items).1.set
    go none free = omega (
      arith,
      ap (λ s. length s) (add_history_item-free p owner k items free).1,
      larger (contains p items.set),
    )
    go (some r) taken =
        omega (arith, ap (λ s. length s) (add_history_item-taken p r owner k items taken).1)

Adds-IsNumbered :
    (me : List ℕ) {items : Items}
    → Adds me items
    → length items.set + 1 < 2 ^ 32
    → IsNumbered me items
unfolding IsNumbered find_item find
Adds-IsNumbered me (cleared items) few = λ j q e. cc
Adds-IsNumbered me (mine {items} p r new) few =
    let earlier : length items.set + 1 < 2 ^ 32 =
      omega (arith, few, grown p me (generate_item_id items) items) in
    mine-IsNumbered me p items (Adds-IsNumbered me r earlier) earlier new
Adds-IsNumbered me (theirs {items} p owner k r new apart) few =
    theirs-IsNumbered me owner p k items
      (Adds-IsNumbered me r (omega (arith, few, grown p owner k items))) new apart

-- In a history that was cleared, and to which new items of a painter came only under the ids that were
-- generated for them and new items of others under any ids, while it has fewer than 2 ^ 32 - 1 items:
-- the id that is generated next is one under which the painter has no item.
pub generate_item_id-free :
    (me : List ℕ) {items : Items}
    → Adds me items
    → length items.set + 1 < 2 ^ 32
    → find_item me (generate_item_id items) items ≡ none
generate_item_id-free me {items} r few = fresh me items (Adds-IsNumbered me r few) few
