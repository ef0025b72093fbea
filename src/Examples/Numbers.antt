-- ===== src/Examples/Numbers.antt =====
-- The items of two painters.
use shared_painter.Common.{ℕ, ◌≡◌, refl, arith, true, List, [], ◌∷◌, none, same_text, less_text}
use shared_painter.History.Items.{
  Items, generate_item_id, find_item, insert_set, contains, add_history_item, with_entry,
  add_history_item-free,
}
use shared_painter.History.Items.Numbering.{Adds, cleared, mine, theirs, generate_item_id-free}

abbrev empty : Items
empty = record { set = []; lists = [] }

abbrev me : List ℕ
me = 97 ∷ []

abbrev other : List ℕ
other = 98 ∷ []

-- Item 5 is mine, and item 6 another's, under the number 9.
abbrev one : Items
one = (add_history_item 5 me (generate_item_id empty) empty).1

abbrev two : Items
two = (add_history_item 6 other 9 one).1

two-Adds : Adds me two
unfolding contains add_history_item generate_item_id same_text
two-Adds = theirs 6 other 9 (mine 5 (cleared empty) refl) refl refl

generate_item_id-free_example : find_item me (generate_item_id two) two ≡ none
unfolding add_history_item contains generate_item_id same_text
generate_item_id-free_example = generate_item_id-free me two-Adds (omega arith)

add_history_item-free_example :
    ((add_history_item 7 me 3 two).0 ≡ true)
    × ((add_history_item 7 me 3 two).1.set ≡ insert_set 7 two.set)
    × ((o : List ℕ) (j : ℕ)
        → find_item o j (add_history_item 7 me 3 two).1 ≡ with_entry me 3 7 two o j)
unfolding find_item add_history_item contains generate_item_id same_text less_text
add_history_item-free_example = add_history_item-free 7 me 3 two refl
