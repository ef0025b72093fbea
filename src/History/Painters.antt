-- ===== src/History/Painters.antt =====
-- SharedPaintCommandManager.cpp, setAllowPainterToDraw: the tasks that are drawn or taken back.
use shared_painter.Common.{
  ℕ, zero, suc, ◌+◌, ◌-◌, ◌≤◌, ◌≡◌, refl, arith, Bool, true, false, List, length, if◌then◌else◌,
  Bool-cases, inl, inr, ok,
}
use shared_painter.History.{
  History, TaskClass, play, play_down, after, is_owned, add_painter, draws, remove_painter,
  set_allow_painter_to_draw,
}
use shared_painter.History.Playback.{IsPlayed, unset, played, last, after-before}

module _ {Task World : Type 0} (drawn : Task → Bool) (act : Task → World → World)
    (xs : List Task) where
  play-inside :
      (i n : ℕ) (w : World) → i + n ≤ length xs → (v : World) × (play drawn act xs i n w ≡ ok v)
  unfolding play
  play-inside i zero w h = (w, refl)
  play-inside i (suc n) w h =
      let l = last xs i (omega arith) in
      let (v, e) = play-inside (suc i) n (if drawn l.task then act l.task w else w) (omega arith) in
      (v, rw l.at e)

  play_down-inside :
      (i n : ℕ) (w : World)
      → n ≤ i
      → i ≤ length xs
      → (v : World) × (play_down drawn act xs i n w ≡ ok v)
  unfolding play_down
  play_down-inside i zero w h k = (w, refl)
  play_down-inside zero (suc n) w h k = absurd (omega arith)
  play_down-inside (suc i) (suc n) w h k =
      let l = last xs i (omega arith) in
      let (v, e) =
        play_down-inside i n (if drawn l.task then act l.task w else w) (omega arith)
          (omega arith) in
      let below : suc i - 1 ≡ i = omega arith in (v, rw (below, l.at) e)

after-inside :
    {Task : Type 0} (h : History Task) (j : ℕ) → IsPlayed h j → after h.play_pos ≤ length h.tasks
after-inside h _ (unset none_yet start) = rw start (omega arith)
after-inside h _ (played j at inside) = rw (at, after-before j) inside

-- While the play position lies in the list of tasks, allowing a painter to draw, or not, never reads
-- past the end of the list, and leaves the tasks and the play position as they are.
pub set_allow_painter_to_draw-total :
    {Task World : Type 0} (class : TaskClass Task World) (h : History Task) (j : ℕ) (user : List ℕ)
    (enabled : Bool) (w : World)
    → IsPlayed h j
    → (h' : History Task) × (v : World) × (set_allow_painter_to_draw class user enabled h w
        ≡ ok (h', v))
      × (h'.tasks ≡ h.tasks)
      × (h'.play_pos ≡ h.play_pos)
unfolding set_allow_painter_to_draw add_painter
set_allow_painter_to_draw-total class h j user true w s = elim (Bool-cases (h.allowed user)) [
  | inl is_allowed ↦ (h, w, rw is_allowed, refl, refl)
  | inr is_not ↦
      let (v, e) =
        play-inside (is_owned class user) (draws class) h.tasks 0 (after h.play_pos) w
          (omega (arith, after-inside h j s)) in
      (add_painter user h, v, rw (is_not, e), refl, refl)
]
set_allow_painter_to_draw-total class h j user false w s = elim (Bool-cases (h.allowed user)) [
  | inl is_allowed ↦
      let (v, e) =
        play_down-inside (is_owned class user) class.rollback h.tasks (after h.play_pos)
          (after h.play_pos) w (omega arith) (after-inside h j s) in
      (remove_painter user h, v, rw (is_allowed, e), refl, refl)
  | inr is_not ↦ (h, w, rw is_not, refl, refl)
]
