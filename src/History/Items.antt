-- ===== src/History/Items.antt =====
-- SharedPainter/SharedPaintManagementData.h, class CSharedPaintItemList, and the items of class
-- CSharedPaintCommandManager of SharedPaintCommandManager.h and .cpp. An item, which the source shares
-- by pointers, is a number.
pub mod Numbering
use shared_painter.Common.{
  ℕ, zero, suc, ◌+◌, ◌%◌, ◌^◌, ◌<◌, ◌≤◌, ◌≡◌, ◌≢◌, refl, sym, ap, subst, ◌∙◌, arith, Bool, true,
  false, Bool-cases, inl, inr, List, [], ◌∷◌, length, Option, none, some, ◌==◌, ==_iff, ==_self,
  ltb, if◌then◌else◌, same_text, same_text_iff, same_text_self, Map, find, place, assign,
  find-place, find-assign, find-assigned, All,
}

-- The entries of a std::map by int, in the order of the keys.
abbrev pub ItemMap : Type 0
ItemMap = List (ℕ × ℕ)

unfoldable pub find_in : ℕ → ItemMap → Option ℕ
find_in k [] = none
find_in k ((j, p) ∷ m) = let rest = find_in k m in if j == k then some p else rest

unfoldable pub insert_in : ℕ → ℕ → ItemMap → ItemMap
insert_in k p [] = (k, p) ∷ []
insert_in k p ((j, q) ∷ m) =
    let rest = insert_in k p m in if ltb k j then (k, p) ∷ (j, q) ∷ m else (j, q) ∷ rest

abbrev pub insert_at : Option ℕ → ℕ → ℕ → ItemMap → Bool × ItemMap
insert_at none k p m = (true, insert_in k p m)
insert_at (some q) k p m = (false, m)

-- `CSharedPaintItemList::addItem`
unfoldable pub add_item : ℕ → ℕ → ItemMap → Bool × ItemMap
unfolding find_in insert_in
add_item k p m = insert_at (find_in k m) k p m

unfoldable pub remove_item : ℕ → ItemMap → ItemMap
remove_item k [] = []
remove_item k ((j, p) ∷ m) = let rest = remove_item k m in if j == k then rest else (j, p) ∷ rest

-- `historyItemSet_` and `userItemListMap_`.
pub record Items : Type 0 where
  pub set : List ℕ
  pub lists : Map ItemMap

abbrev pub clear_history_item : Items → Items
clear_history_item items = record { set = []; lists = [] }

abbrev pub history_item_count : Items → ℕ
history_item_count items = length items.set

-- `historyItemSet_.size() + 1` as an int.
unfoldable pub generate_item_id : Items → ℕ
generate_item_id items = (length items.set + 1) % 2 ^ 32

abbrev pub find_at : Option ItemMap → ℕ → Option ℕ
find_at none k = none
find_at (some m) k = find_in k m

unfoldable pub find_item : List ℕ → ℕ → Items → Option ℕ
unfolding find find_in
find_item owner k items = find_at (find owner items.lists) k

unfoldable pub contains : ℕ → List ℕ → Bool
contains p [] = false
contains p (q ∷ qs) = let rest = contains p qs in if q == p then true else rest

-- A std::set of pointers, whose order is of no use here.
abbrev pub insert_set : ℕ → List ℕ → List ℕ
insert_set p qs = if contains p qs then qs else p ∷ qs

abbrev pub added : ℕ → List ℕ → Bool × ItemMap → Map ItemMap → Items → Bool × Items
added p owner (true, m) lists items =
    (true, record { set = insert_set p items.set; lists = assign owner m lists })
added p owner (false, m) lists items = (false, record items { lists = assign owner m lists })

abbrev pub add_to_list : Option ItemMap → ℕ → List ℕ → ℕ → Items → Bool × Items
add_to_list none p owner k items =
    added p owner (add_item k p []) (place owner [] items.lists) items
add_to_list (some m) p owner k items = added p owner (add_item k p m) items.lists items

-- The item `p` of this owner and id. False stands for the error that is shown.
unfoldable pub add_history_item : ℕ → List ℕ → ℕ → Items → Bool × Items
unfolding find place assign add_item contains
add_history_item p owner k items = add_to_list (find owner items.lists) p owner k items

find_in-insert_in :
    (k j p : ℕ) (m : ItemMap)
    → find_in k m ≡ none
    → find_in j (insert_in k p m) ≡ (if k == j then some p else find_in j m)
unfolding find_in insert_in
find_in-insert_in k j p [] h = ground arith
find_in-insert_in k j p ((i, q) ∷ m) h = ground (arith, find_in-insert_in k j p m)

find-overwritten :
    (owner o : List ℕ) (m w : ItemMap) (lists : Map ItemMap)
    → find owner lists ≡ some w
    → find o (assign owner m lists) ≡ (if same_text owner o then some m else find o lists)
find-overwritten owner o m w lists at = elim (Bool-cases (same_text owner o)) [
  | inl same ↦ rw (same, ← (same_text_iff owner o).0 same) (find-assigned owner m w lists at)
  | inr other ↦ rw other (find-assign owner o m lists other)
]

-- What is found with a new entry.
abbrev pub with_entry : List ℕ → ℕ → ℕ → Items → List ℕ → ℕ → Option ℕ
with_entry owner k p items o j =
    if same_text owner o
    then if k == j then some p else find_item o j items
    else find_item o j items

find_item-inserted :
    (p : ℕ) (owner : List ℕ) (k : ℕ) (items : Items) (w : ItemMap) (lists : Map ItemMap)
    (set : List ℕ)
    → find owner lists ≡ some w
    → find_in k w ≡ none
    → ((o : List ℕ) (j : ℕ) → find_at (find o lists) j ≡ find_item o j items)
    → (o : List ℕ) (j : ℕ)
    → find_item o j (record { set = set; lists = assign owner (insert_in k p w) lists })
      ≡ with_entry owner k p items o j
unfolding find_item
find_item-inserted p owner k items w lists set at free same o j =
    rw (find-overwritten owner o (insert_in k p w) w lists at)
      (elim (Bool-cases (same_text owner o)) [
        | inl equal ↦ rw equal (
            find_in-insert_in k j p w free
            ∙ ap (λ t. if k == j then some p else t)
                (ap (λ t. find_at t j) (sym at)
                  ∙ ap (λ i. find_at (find i lists) j) ((same_text_iff owner o).0 equal)
                  ∙ same o j))
        | inr other ↦ rw other (same o j)
      ])

empty_list :
    (owner : List ℕ) (items : Items)
    → find owner items.lists ≡ none
    → (o : List ℕ) (j : ℕ) → find_at (find o (place owner [] items.lists)) j ≡ find_item o j items
unfolding find_item find_in
empty_list owner items absent o j =
    rw (find-place owner o [] items.lists absent) (elim (Bool-cases (same_text owner o)) [
      | inl same ↦ rw same (
          ap (λ t. find_at t j)
            (sym (ap (λ i. find i items.lists) (sym ((same_text_iff owner o).0 same)) ∙ absent)))
      | inr other ↦ rw other refl
    ])

-- Where the owner has no item of this id, the item is added: it is found under both, whatever else was
-- found still is, and it joins the set.
pub add_history_item-free :
    (p : ℕ) (owner : List ℕ) (k : ℕ) (items : Items)
    → find_item owner k items ≡ none
    → ((add_history_item p owner k items).0 ≡ true)
      × ((add_history_item p owner k items).1.set ≡ insert_set p items.set)
      × ((o : List ℕ) (j : ℕ)
          → find_item o j (add_history_item p owner k items).1 ≡ with_entry owner k p items o j)
unfolding add_history_item find_item
add_history_item-free p owner k items free = go (find owner items.lists) refl
  where
    go :
        (o : Option ItemMap)
        → find owner items.lists ≡ o
        → ((add_to_list o p owner k items).0 ≡ true)
          × ((add_to_list o p owner k items).1.set ≡ insert_set p items.set)
          × ((i : List ℕ) (j : ℕ)
              → find_item i j (add_to_list o p owner k items).1 ≡ with_entry owner k p items i j)
    go none absent =
        let at : find owner (place owner [] items.lists) ≡ some [] =
          find-place owner owner [] items.lists absent ∙ rw (same_text_self owner) refl in
        (
          refl,
          refl,
          find_item-inserted p owner k items [] (place owner [] items.lists)
              (insert_set p items.set) at refl (empty_list owner items absent),
        )
    go (some m) at =
        let none_in : find_in k m ≡ none = ap (λ t. find_at t k) (sym at) ∙ free in
        rw none_in (
          refl,
          refl,
          find_item-inserted p owner k items m items.lists (insert_set p items.set) at none_in
              (λ o j. refl),
        )

-- Where the owner has an item of this id, nothing that is found changes, and the set stays.
pub add_history_item-taken :
    (p q : ℕ) (owner : List ℕ) (k : ℕ) (items : Items)
    → find_item owner k items ≡ some q
    → ((add_history_item p owner k items).0 ≡ false)
      × ((add_history_item p owner k items).1.set ≡ items.set)
      × ((o : List ℕ) (j : ℕ)
          → find_item o j (add_history_item p owner k items).1 ≡ find_item o j items)
unfolding add_history_item find_item
add_history_item-taken p q owner k items taken = go (find owner items.lists) refl
  where
    go :
        (o : Option ItemMap)
        → find owner items.lists ≡ o
        → ((add_to_list o p owner k items).0 ≡ false)
          × ((add_to_list o p owner k items).1.set ≡ items.set)
          × ((i : List ℕ) (j : ℕ)
              → find_item i j (add_to_list o p owner k items).1 ≡ find_item i j items)
    go none absent = let e : none ≡ some q = ap (λ t. find_at t k) (sym absent) ∙ taken in cc
    go (some m) at =
        let some_in : find_in k m ≡ some q = ap (λ t. find_at t k) (sym at) ∙ taken in
        rw some_in (
          refl,
          refl,
          λ i j.
              ap (λ t. find_at t j)
                (find-overwritten owner i m m items.lists at
                  ∙ elim (Bool-cases (same_text owner i)) [
                    | inl same ↦
                        rw same
                          (sym at ∙ ap (λ o. find o items.lists) ((same_text_iff owner i).0 same))
                    | inr other ↦ rw other refl
                  ]),
        )
