-- ===== src/History/Rounds.antt =====
-- SharedPaintCommandManager.cpp: the tasks that playbackTo executes or rolls back.
use shared_painter.Common.{
  ℕ, zero, suc, ◌+◌, ◌-◌, ◌≤◌, ◌<◌, ◌≡◌, refl, sym, ap, subst, ◌∙◌, arith, Bool, Bool-cases, inl,
  inr, List, [], ◌∷◌, length, length-drop, take, drop, get_elem?, Option, none, some, ltb, ltb→lt,
  if◌then◌else◌, ok,
}
use mathlib.Core.List.{reverse, reverse-append}
use shared_painter.History.{
  before, History, TaskClass, draws, is_drawn, play, play_down, playforward_to, playback_to,
  playbackward_to,
}
use shared_painter.History.Playback.{
  replay, IsPlayed, unset, played, last, less-before, outside-before, outside-pos, after-before,
  ltb→le,
}

-- The n tasks from index i on.
abbrev pub slice : {Task : Type 0} → List Task → ℕ → ℕ → List Task
slice xs i n = take n (drop i xs)

drop-at :
    {Task : Type 0} (xs : List Task) (i : ℕ) (t : Task)
    → get_elem? xs i ≡ some t
    → drop i xs ≡ t ∷ drop (suc i) xs
drop-at [] i t e = absurd (no_task e)
  where
    no_task : {A : Type 0} {a : A} → ◌≡◌ {A = Option A} none (some a) → ⊥
    no_task e = cc
drop-at (x ∷ xs) zero t e = cc
drop-at (x ∷ xs) (suc i) t e = drop-at xs i t e

get_elem?-drop :
    {Task : Type 0} (xs : List Task) (i n : ℕ) → get_elem? (drop i xs) n ≡ get_elem? xs (i + n)
get_elem?-drop xs zero n = ap (get_elem? xs) (omega arith)
get_elem?-drop [] (suc i) n = refl
get_elem?-drop (x ∷ xs) (suc i) n = get_elem?-drop xs i n ∙ sym (ap (get_elem? (x ∷ xs)) up)
  where
    up : suc i + n ≡ suc (i + n)
    up = omega arith

module _ {Task World : Type 0} (drawn : Task → Bool) (act : Task → World → World)
    (xs : List Task) where
  play-slice :
      (i n : ℕ) (w : World)
      → i + n ≤ length xs
      → play drawn act xs i n w ≡ ok (replay drawn act (slice xs i n) w)
  unfolding play replay
  play-slice i zero w h = refl
  play-slice i (suc n) w h =
      let l = last xs i (omega arith) in
      rw (l.at, drop-at xs i l.task l.at) (play-slice (suc i) n _ (omega arith))

  play_down-slice :
      (i n : ℕ) (w : World)
      → i + n ≤ length xs
      → play_down drawn act xs (i + n) n w ≡ ok (replay drawn act (reverse (slice xs i n)) w)
  unfolding play_down replay
  play_down-slice i zero w h = refl
  play_down-slice i (suc n) w h =
      let l = last (drop i xs) n (omega (arith, length-drop i xs)) in
      rw
        (
          below,
          sym (get_elem?-drop xs i n) ∙ l.at,
          l.splits,
          reverse-append (slice xs i n) (l.task ∷ []),
        )
        (play_down-slice i n _ (omega arith))
    where
      below : (i + suc n) - 1 ≡ i + n
      below = omega arith

module _ {Task World : Type 0} (class : TaskClass Task World) (h : History Task) where
  -- What is drawn behind playing from a count of the tasks to another one: the tasks between them
  -- that may be drawn are executed in their order, or rolled back from the last one down.
  abbrev pub played_to : ℕ → ℕ → World → World
  played_to j k w =
      if ltb j k
      then replay (is_drawn class h) (draws class) (slice h.tasks j (k - j)) w
      else replay (is_drawn class h) class.rollback (reverse (slice h.tasks k (j - k))) w

  forward-slice :
      (i k : ℕ) (w : World)
      → i < k
      → k ≤ length h.tasks
      → playforward_to class (before i) (before k) h w
        ≡ ok (replay (is_drawn class h) (draws class) (slice h.tasks i (k - i)) w)
  unfolding playforward_to
  forward-slice i zero w less_k hk = absurd (omega arith)
  forward-slice i (suc k) w less_k hk =
      rw
        (
          outside-before (length h.tasks) i (omega arith),
          outside-pos (length h.tasks) k hk,
          after-before i,
        )
        (play-slice (is_drawn class h) (draws class) h.tasks i (suc k - i) w (omega arith))

  backward-slice :
      (i k : ℕ) (w : World)
      → k ≤ i
      → i ≤ length h.tasks
      → playbackward_to class (before i) (before k) h w
        ≡ ok (replay (is_drawn class h) class.rollback (reverse (slice h.tasks k (i - k))) w)
  unfolding playbackward_to replay
  backward-slice zero zero w le hi = refl
  backward-slice zero (suc k) w le hi = absurd (omega arith)
  backward-slice (suc i) k w le hi =
      rw
        (
          outside-pos (length h.tasks) i hi,
          outside-before (length h.tasks) k (omega arith),
          after-before k,
        )
        (subst
          (λ n.
            play_down (is_drawn class h) class.rollback h.tasks n (suc i - k) w
            ≡ ok (
                replay (is_drawn class h) class.rollback (reverse (slice h.tasks k (suc i - k))) w))
          up
          (play_down-slice (is_drawn class h) class.rollback h.tasks k (suc i - k) w (omega arith)))
    where
      up : k + (suc i - k) ≡ suc i
      up = omega arith

  -- From a history played up to a count of its tasks, playing to any position from before the first
  -- task to the last one returns, with that position and no other change of the history. Forward it
  -- executes, in their order, the tasks in between whose owner may draw, each once; backward it
  -- rolls back, from the last one down, those in between whose owner may draw, each once.
  pub playback_to-replay :
      (j k : ℕ) (w : World)
      → IsPlayed h j
      → k ≤ length h.tasks
      → playback_to class (before k) h w ≡ ok (record h { play_pos = before k }, played_to j k w)
  unfolding playback_to playforward_to playbackward_to replay
  playback_to-replay _ k w (unset none_yet start) hk = rw (start, first, none_yet) refl
    where
      first : k ≡ 0
      first = omega (arith, ap length none_yet)
  playback_to-replay _ k w (played j at inside) hk = elim (Bool-cases (ltb j k)) [
    | inl less_k ↦ rw (at, less-before j k, less_k, forward-slice j k w (ltb→lt j k less_k) hk)
    | inr most ↦ rw (at, less-before j k, most, backward-slice j k w (ltb→le j k most) inside)
  ]
