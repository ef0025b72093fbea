-- ===== src/Examples/Histories.antt =====
-- Playback and undo, where a task or a command adds its number to what is drawn.
use shared_painter.Common.{ℕ, ◌+◌, ◌-◌, ◌≡◌, refl, arith, length, true, false, [], ◌∷◌, ok}
use shared_painter.History.{
  History, TaskClass, before, playback_to, execute_task, set_allow_painter_to_draw,
}
use shared_painter.History.Playback.{replay, IsPlayed, played, Shows, execute_task-Shows}
use shared_painter.History.Rounds.{played_to, playback_to-replay}
use shared_painter.History.Painters.{set_allow_painter_to_draw-total}
use shared_painter.History.Commands.{
  Stacks, CommandClass, execute_command, undo_command, redo_command, timeline, one_if,
  timeline-command,
}

abbrev adding : TaskClass ℕ ℕ
adding = record {
  owner = λ t. t ∷ [];
  set_send_data = λ send t. t;
  execute = λ t w. (true, t + w);
  rollback = λ t w. w - t;
}

abbrev two_tasks : History ℕ
two_tasks = record { tasks = 5 ∷ 7 ∷ []; play_pos = before 2; allowed = λ id. true }

two_tasks-IsPlayed : IsPlayed two_tasks 2
two_tasks-IsPlayed = played 2 refl (omega arith)

two_tasks-Shows : Shows adding two_tasks 0 12
unfolding replay
two_tasks-Shows = record { count = 2; reached = two_tasks-IsPlayed; drawn = refl }

-- Playing back to the first task.
playback_to-replay_example :
    playback_to adding (before 1) two_tasks 12
    ≡ ok (record two_tasks { play_pos = before 1 }, played_to adding two_tasks 2 1 12)
playback_to-replay_example =
    playback_to-replay adding two_tasks 2 1 12 two_tasks-IsPlayed (omega arith)

played_back : played_to adding two_tasks 2 1 12 ≡ 5
unfolding replay
played_back = refl

execute_task-Shows_example :
    Shows adding
      (execute_task adding 9 true two_tasks 12).1
      0
      (execute_task adding 9 true two_tasks 12).2
execute_task-Shows_example = execute_task-Shows adding two_tasks 0 12 9 true two_tasks-Shows

set_allow_painter_to_draw-total_example :
    (h : History ℕ) × (v : ℕ) × (set_allow_painter_to_draw adding (5 ∷ []) false two_tasks 12
      ≡ ok (h, v))
    × (h.tasks ≡ 5 ∷ 7 ∷ [])
    × (h.play_pos ≡ before 2)
set_allow_painter_to_draw-total_example =
    set_allow_painter_to_draw-total adding two_tasks 2 (5 ∷ []) false 12 two_tasks-IsPlayed

abbrev adding_command : CommandClass ℕ ℕ
adding_command = record { execute = λ c w. (true, c + w); undo = λ c w. (true, w - c) }

abbrev two_commands : Stacks ℕ
two_commands = record { command_list = 7 ∷ []; redo_command_list = 5 ∷ [] }

timeline-command_example :
    (timeline adding_command (undo_command adding_command two_commands 7).1 ≡ 7 ∷ 5 ∷ [])
    × (length (undo_command adding_command two_commands 7).1.command_list
          + one_if adding_command (undo_command adding_command two_commands 7).0
        ≡ 1)
    × (timeline adding_command (redo_command adding_command two_commands 7).1 ≡ 7 ∷ 5 ∷ [])
    × (length (redo_command adding_command two_commands 7).1.command_list
        ≡ 1 + one_if adding_command (redo_command adding_command two_commands 7).0)
    × ((execute_command adding_command 9 two_commands 7).1
        ≡ record { command_list = 9 ∷ 7 ∷ []; redo_command_list = [] })
timeline-command_example = timeline-command adding_command 9 two_commands 7
