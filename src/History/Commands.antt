-- ===== src/History/Commands.antt =====
-- SharedPainter/SharedPaintCommandManager.h: the commands that were executed, to undo and to redo.
use shared_painter.Common.{
  ℕ, ◌+◌, arith, length, if◌then◌else◌, ◌≡◌, refl, sym, ap, ◌∙◌, Bool, true, false, List, [], ◌∷◌,
  ◌++◌, append_assoc,
}
use mathlib.Core.List.{reverse, reverse-cons}

-- CSharedPaintCommand as the manager sees it: a success, and what is drawn.
pub record CommandClass (Command World : Type 0) : Type 0 where
  pub execute : Command → World → Bool × World
  pub undo : Command → World → Bool × World

-- `commandList_` and `redoCommandList_`, the top of each stack first.
pub record Stacks (Command : Type 0) : Type 0 where
  pub command_list : List Command
  pub redo_command_list : List Command

unfoldable pub clear_history_command : {Command : Type 0} → Stacks Command → Stacks Command
clear_history_command s = record { command_list = []; redo_command_list = [] }

module _ {Command World : Type 0} (class : CommandClass Command World) where
  abbrev pub done_with :
      Bool × World → Stacks Command → Stacks Command → Bool × Stacks Command × World
  done_with (true, w) old new = (true, new, w)
  done_with (false, w) old new = (false, old, w)

  unfoldable pub execute_command : Command → Stacks Command → World → Bool × Stacks Command × World
  execute_command c s w =
      done_with (class.execute c w) s
        (record { command_list = c ∷ s.command_list; redo_command_list = [] })

  redo_top : List Command → Stacks Command → World → Bool × Stacks Command × World
  redo_top [] s w = (false, s, w)
  redo_top (c ∷ cs) s w =
      done_with (class.execute c w) s
        (record { command_list = c ∷ s.command_list; redo_command_list = cs })

  unfoldable pub redo_command : Stacks Command → World → Bool × Stacks Command × World
  unfolding redo_top
  redo_command s w = redo_top s.redo_command_list s w

  undo_top : List Command → Stacks Command → World → Bool × Stacks Command × World
  undo_top [] s w = (false, s, w)
  undo_top (c ∷ cs) s w =
      done_with (class.undo c w) s
        (record { command_list = cs; redo_command_list = c ∷ s.redo_command_list })

  unfoldable pub undo_command : Stacks Command → World → Bool × Stacks Command × World
  unfolding undo_top
  undo_command s w = undo_top s.command_list s w

  -- All commands in the order in which they were first executed.
  abbrev pub timeline : Stacks Command → List Command
  timeline s = reverse s.command_list ++ s.redo_command_list

  moved : (c : Command) (xs ys : List Command) → reverse (c ∷ xs) ++ ys ≡ reverse xs ++ (c ∷ ys)
  moved c xs ys = ap (λ t. t ++ ys) (reverse-cons c xs) ∙ append_assoc (reverse xs) (c ∷ []) ys

  kept :
      (r : Bool × World) (old new : Stacks Command)
      → timeline new ≡ timeline old
      → timeline (done_with r old new).1 ≡ timeline old
  kept (true, w) old new e = e
  kept (false, w) old new e = refl

  timeline-undo_redo :
      (s : Stacks Command) (w : World)
      → (timeline (undo_command s w).1 ≡ timeline s) × (timeline (redo_command s w).1 ≡ timeline s)
  unfolding undo_command redo_command undo_top redo_top
  timeline-undo_redo s w = (undone s.command_list refl, redone s.redo_command_list refl)
    where
      undone : (cs : List Command) → s.command_list ≡ cs → timeline (undo_top cs s w).1 ≡ timeline s
      undone [] e = refl
      undone (c ∷ cs) e = kept (class.undo c w) s _ (
          sym (moved c cs s.redo_command_list) ∙ ap (λ t. reverse t ++ s.redo_command_list) (sym e))

      redone :
          (cs : List Command) → s.redo_command_list ≡ cs → timeline (redo_top cs s w).1 ≡ timeline s
      redone [] e = refl
      redone (c ∷ cs) e =
          kept (class.execute c w) s _
            (moved c s.command_list cs ∙ ap (λ t. reverse s.command_list ++ t) (sym e))

  -- One command more or less is done where the call succeeds.
  abbrev pub one_if : Bool → ℕ
  one_if b = if b then 1 else 0

  done_with-count :
      (r : Bool × World) (old new : Stacks Command)
      → length new.command_list ≡ length old.command_list + 1
      → length (done_with r old new).1.command_list
        ≡ length old.command_list + one_if (done_with r old new).0
  done_with-count (true, w) old new e = e
  done_with-count (false, w) old new e = omega arith

  done_with-uncount :
      (r : Bool × World) (old new : Stacks Command)
      → length new.command_list + 1 ≡ length old.command_list
      → length (done_with r old new).1.command_list + one_if (done_with r old new).0
        ≡ length old.command_list
  done_with-uncount (true, w) old new e = e
  done_with-uncount (false, w) old new e = omega arith

  -- Undoing and redoing, successful or not, keep the commands and their order, and undo makes the
  -- done ones one fewer where it succeeds, redo one more, and neither changes their count where it
  -- fails. Executing a command where that succeeds leaves the done ones and the new one behind them,
  -- with nothing to redo, and changes neither stack where it fails.
  pub timeline-command :
      (c : Command) (s : Stacks Command) (w : World)
      → (timeline (undo_command s w).1 ≡ timeline s)
        × (length (undo_command s w).1.command_list + one_if (undo_command s w).0
            ≡ length s.command_list)
        × (timeline (redo_command s w).1 ≡ timeline s)
        × (length (redo_command s w).1.command_list
            ≡ length s.command_list + one_if (redo_command s w).0)
        × ((execute_command c s w).1 ≡ (
            if (class.execute c w).0
            then record { command_list = c ∷ s.command_list; redo_command_list = [] }
            else s))
  unfolding undo_command redo_command undo_top redo_top execute_command
  timeline-command c s w = (
    (timeline-undo_redo s w).0,
    undone s.command_list refl,
    (timeline-undo_redo s w).1,
    redone s.redo_command_list,
    executed (class.execute c w),
  )
    where
      undone :
          (cs : List Command)
          → s.command_list ≡ cs
          → length (undo_top cs s w).1.command_list + one_if (undo_top cs s w).0
            ≡ length s.command_list
      undone [] e = omega arith
      undone (c ∷ cs) e = done_with-uncount (class.undo c w) s _ (omega (arith, ap length e))

      redone :
          (cs : List Command)
          → length (redo_top cs s w).1.command_list
            ≡ length s.command_list + one_if (redo_top cs s w).0
      redone [] = omega arith
      redone (c ∷ cs) = done_with-count (class.execute c w) s _ (omega arith)

      executed :
          (r : Bool × World)
          → (done_with r s (record { command_list = c ∷ s.command_list; redo_command_list = [] })).1
            ≡ (if r.0
                then record { command_list = c ∷ s.command_list; redo_command_list = [] }
                else s)
      executed (true, v) = refl
      executed (false, v) = refl
