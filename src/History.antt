-- ===== src/History.antt =====
-- SharedPainter/SharedPaintCommandManager.h and .cpp, class CSharedPaintCommandManager: the tasks
-- of a channel, how far they are played, whose tasks are drawn, and the commands to undo and redo.
-- What the observers are told is left out.
pub mod Playback
pub mod Rounds
pub mod Commands
pub mod Painters
pub mod Items
use shared_painter.Common.{
  same_text, ℕ, zero, suc, ◌+◌, ◌-◌, Bool, true, false, List, [], ◌∷◌, ◌++◌, length, get_elem?,
  Option, none, some, ltb, leb, ◌==◌, if◌then◌else◌, not, Outcome, ok, throw, fault, and_then,
}

pub data ℤ : Type 0 where
  pos negsuc : ℕ → ℤ

-- k - 1
abbrev pub before : ℕ → ℤ
before zero = negsuc 0
before (suc k) = pos k

abbrev pub equal : ℤ → ℤ → Bool
equal (pos a) (pos b) = a == b
equal (pos a) (negsuc b) = false
equal (negsuc a) (pos b) = false
equal (negsuc a) (negsuc b) = a == b

-- a < b
abbrev pub less : ℤ → ℤ → Bool
less (pos a) (pos b) = ltb a b
less (pos a) (negsuc b) = false
less (negsuc a) (pos b) = true
less (negsuc a) (negsuc b) = ltb b a

-- a + 1, where that is not negative; 0 below.
abbrev pub after : ℤ → ℕ
after (pos a) = suc a
after (negsuc a) = 0

-- CSharedPaintTask as its clients see it, where a World is what is drawn: `execute`, which reports
-- its success, and `rollback` change that. What `execute` sends to the others is left out.
pub record TaskClass (Task World : Type 0) : Type 0 where
  pub owner : Task → List ℕ
  pub set_send_data : Bool → Task → Task
  pub execute : Task → World → Bool × World
  pub rollback : Task → World → World

-- `historyTaskList_`, `currentPlayPos_` and the set `allowPainters_`, by its members.
pub record History (Task : Type 0) : Type 0 where
  pub tasks : List Task
  pub play_pos : ℤ
  pub allowed : List ℕ → Bool

abbrev pub default_init_playback_pos : ℤ
default_init_playback_pos = negsuc 1

unfoldable pub new_history : {Task : Type 0} → History Task
new_history = record { tasks = []; play_pos = default_init_playback_pos; allowed = λ _. false }

unfoldable pub clear_history_task : {Task : Type 0} → History Task → History Task
clear_history_task h = record h { tasks = []; play_pos = default_init_playback_pos }

unfoldable pub add_painter : {Task : Type 0} → List ℕ → History Task → History Task
add_painter user h = record h { allowed = λ id. if same_text id user then true else h.allowed id }

abbrev pub remove_painter : {Task : Type 0} → List ℕ → History Task → History Task
remove_painter user h = record h {
  allowed = λ id. if same_text id user then false else h.allowed id;
}

unfoldable pub is_playback_mode : {Task : Type 0} → History Task → Bool
is_playback_mode h =
    if equal default_init_playback_pos h.play_pos
    then false
    else not (equal (before (length h.tasks)) h.play_pos)

-- `x < low || x >= (int)size`
abbrev pub outside : ℤ → ℕ → ℤ → Bool
outside low size x = if less x low then true else not (less x (pos size))

-- What is done at one index: nothing where the owner is skipped, undefined behaviour past the end.
abbrev pub visit :
    {Task World : Type 0}
    → (Task → Bool)
    → (Task → World → World)
    → Option Task
    → World
    → Outcome World
visit drawn act none w = fault
visit drawn act (some t) w = ok (if drawn t then act t w else w)

-- The n tasks from index i on, upwards.
unfoldable pub play :
    {Task World : Type 0}
    → (Task → Bool)
    → (Task → World → World)
    → List Task
    → ℕ
    → ℕ
    → World
    → Outcome World
play drawn act tasks i zero w = ok w
play drawn act tasks i (suc n) w =
    and_then (visit drawn act (get_elem? tasks i) w) (play drawn act tasks (suc i) n)

-- The n tasks below index i, downwards.
unfoldable pub play_down :
    {Task World : Type 0}
    → (Task → Bool)
    → (Task → World → World)
    → List Task
    → ℕ
    → ℕ
    → World
    → Outcome World
play_down drawn act tasks i zero w = ok w
play_down drawn act tasks i (suc n) w =
    and_then (visit drawn act (get_elem? tasks (i - 1)) w) (play_down drawn act tasks (i - 1) n)

module _ {Task World : Type 0} (class : TaskClass Task World) where
  abbrev pub draws : Task → World → World
  draws t w = (class.execute t w).1

  abbrev pub is_drawn : History Task → Task → Bool
  is_drawn h t = h.allowed (class.owner t)

  -- The result, the history and what is drawn.
  unfoldable pub execute_task : Task → Bool → History Task → World → Bool × History Task × World
  unfolding is_playback_mode
  execute_task task send_data h w =
      let playback = is_playback_mode h in
      let task' = class.set_send_data send_data task in
      let pushed = h.tasks ++ (task' ∷ []) in
      let h' : History Task = record h {
        tasks = pushed;
        play_pos = if playback then h.play_pos else before (length pushed);
      } in
      if playback
      then (true, h', w)
      else if is_drawn h task'
      then ((class.execute task' w).0, h', (class.execute task' w).1)
      else (true, h', w)

  -- `_playforwardTo`: the first test of the source is `from < -1 || from >= (int)size`.
  unfoldable pub playforward_to : ℤ → ℤ → History Task → World → Outcome World
  unfolding play
  playforward_to from to h w =
      if outside (negsuc 0) (length h.tasks) from
      then ok w
      else if outside (pos 0) (length h.tasks) to
      then ok w
      else play (is_drawn h) draws h.tasks (after from) (after to - after from) w

  unfoldable pub playbackward_to : ℤ → ℤ → History Task → World → Outcome World
  unfolding play_down
  playbackward_to from to h w =
      if outside (pos 0) (length h.tasks) from
      then ok w
      else if outside (negsuc 0) (length h.tasks) to
      then ok w
      else play_down (is_drawn h) class.rollback h.tasks (after from) (after from - after to) w

  unfoldable pub playback_to : ℤ → History Task → World → Outcome (History Task × World)
  unfolding playforward_to playbackward_to
  playback_to position h w =
      and_then
        (if less h.play_pos position
          then playforward_to h.play_pos position h w
          else playbackward_to h.play_pos position h w)
        (λ w'. ok (record h { play_pos = position }, w'))

  abbrev pub is_owned : List ℕ → Task → Bool
  is_owned user t = same_text (class.owner t) user

  unfoldable pub set_allow_painter_to_draw :
      List ℕ → Bool → History Task → World → Outcome (History Task × World)
  unfolding play play_down add_painter
  set_allow_painter_to_draw user true h w =
      if h.allowed user
      then ok (h, w)
      else and_then (play (is_owned user) draws h.tasks 0 (after h.play_pos) w)
          (λ w'. ok (add_painter user h, w'))
  set_allow_painter_to_draw user false h w =
      if h.allowed user
      then and_then
          (play_down (is_owned user) class.rollback h.tasks (after h.play_pos) (after h.play_pos) w)
          (λ w'. ok (remove_painter user h, w'))
      else ok (h, w)
