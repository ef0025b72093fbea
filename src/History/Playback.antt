-- ===== src/History/Playback.antt =====
-- SharedPaintCommandManager.cpp: executeTask against a replay of the tasks.
use shared_painter.Common.{
  ℕ, zero, suc, ◌≤◌, ◌<◌, ◌≡◌, refl, sym, ap, subst, ◌∙◌, arith, Bool, true, false, not, List, [],
  ◌∷◌, ◌++◌, length, length-append, take, take-length, take-append_of_le, get_elem?, some, ltb,
  ◌==◌, ◌≢◌, Bool-cases, inl, inr, if◌then◌else◌, take_of_length_le,
}
use shared_painter.History.{
  pos, negsuc, before, after, equal, less, outside, History, TaskClass, draws, is_drawn,
  execute_task, is_playback_mode, default_init_playback_pos,
}

-- What tasks draw, one after the other.
unfoldable pub replay :
    {Task World : Type 0} → (Task → Bool) → (Task → World → World) → List Task → World → World
replay drawn act [] w = w
replay drawn act (t ∷ ts) w = replay drawn act ts (if drawn t then act t w else w)

equal-before : (a b : ℕ) → equal (before a) (before b) ≡ (a == b)
equal-before zero zero = refl
equal-before zero (suc b) = ground arith
equal-before (suc a) zero = ground arith
equal-before (suc a) (suc b) = ground arith

pub less-before : (a b : ℕ) → less (before a) (before b) ≡ ltb a b
less-before zero zero = ground arith
less-before zero (suc b) = ground arith
less-before (suc a) zero = ground arith
less-before (suc a) (suc b) = ground arith

pub outside-before : (size k : ℕ) → k ≤ size → outside (negsuc 0) size (before k) ≡ false
outside-before size zero h = ground arith
outside-before size (suc k) h = ground arith

pub outside-pos : (size k : ℕ) → suc k ≤ size → outside (pos 0) size (pos k) ≡ false
outside-pos size k h = ground arith

pub after-before : (k : ℕ) → after (before k) ≡ k
after-before zero = refl
after-before (suc k) = refl

pub ltb→le : (a b : ℕ) → ltb a b ≡ false → b ≤ a
ltb→le a b h = ground arith

unset-before : (k : ℕ) → equal default_init_playback_pos (before k) ≡ false
unset-before zero = ground arith
unset-before (suc k) = refl

-- The task at an index is the last of the tasks up to it.
pub record Last {Task : Type 0} (xs : List Task) (k : ℕ) : Type 0 where
  pub task : Task
  pub at : get_elem? xs k ≡ some task
  pub splits : take (suc k) xs ≡ take k xs ++ (task ∷ [])

pub last : {Task : Type 0} (xs : List Task) (k : ℕ) → k < length xs → Last xs k
last [] k h = absurd (omega arith)
last (x ∷ xs) zero h = record { task = x; at = refl; splits = refl }
last (x ∷ xs) (suc k) h =
    let l = last xs k (omega arith) in
    record { task = l.task; at = l.at; splits = ap (λ t. x ∷ t) l.splits }

module _ {Task World : Type 0} where
  replay-append :
      (drawn : Task → Bool) (act : Task → World → World) (xs ys : List Task) (w : World)
      → replay drawn act (xs ++ ys) w ≡ replay drawn act ys (replay drawn act xs w)
  unfolding replay
  replay-append drawn act [] ys w = refl
  replay-append drawn act (x ∷ xs) ys w = replay-append drawn act xs ys _

-- How far a history is played: nowhere before its first task, else up to a count of its tasks.
pub data IsPlayed {Task : Type 0} (h : History Task) : ℕ → Type 0 where
  unset : h.tasks ≡ [] → h.play_pos ≡ default_init_playback_pos → IsPlayed h 0
  played : (k : ℕ) → h.play_pos ≡ before k → k ≤ length h.tasks → IsPlayed h k

not_other : (n j : ℕ) → not (n == j) ≡ false → n ≤ j
not_other n j e = ground arith

true_not : ◌≢◌ {A = Bool} false true
true_not e = cc

module _ {Task World : Type 0} (class : TaskClass Task World) where
  -- What is drawn is what the allowed tasks up to the play position draw on an empty canvas.
  pub record Shows (h : History Task) (canvas w : World) : Type 0 where
    pub count : ℕ
    pub reached : IsPlayed h count
    pub drawn : w ≡ replay (is_drawn class h) (draws class) (take count h.tasks) canvas

  all_counted : (n j : ℕ) → not (equal (before n) (before j)) ≡ false → n ≤ j
  all_counted n j e = not_other n j (subst (λ b. not b ≡ false) (equal-before n j) e)

  -- Out of playback everything is played, so what is drawn are all tasks.
  all-played :
      (h : History Task) (j : ℕ)
      → IsPlayed h j
      → is_playback_mode h ≡ false
      → take j h.tasks ≡ h.tasks
  unfolding is_playback_mode
  all-played h _ (unset none_yet start) e = rw none_yet refl
  all-played h _ (played j at inside) e =
      take_of_length_le j h.tasks (all_counted (length h.tasks) j mode)
    where
      mode : not (equal (before (length h.tasks)) (before j)) ≡ false
      mode =
          subst
            (λ b. (if b then false else not (equal (before (length h.tasks)) (before j))) ≡ false)
            (unset-before j)
            (subst
              (λ p.
                (if equal default_init_playback_pos p
                  then false
                  else not (equal (before (length h.tasks)) p))
                ≡ false)
              at e)

  -- In playback the position is that of a count of the tasks.
  still-played :
      (h : History Task) (j : ℕ)
      → IsPlayed h j
      → is_playback_mode h ≡ true
      → (h.play_pos ≡ before j) × (j ≤ length h.tasks)
  unfolding is_playback_mode
  still-played h _ (unset none_yet start) e = absurd (
      true_not (
        subst
          (λ p.
            (if equal default_init_playback_pos p
              then false
              else not (equal (before (length h.tasks)) p))
            ≡ true)
          start e))
  still-played h _ (played j at inside) e = (at, inside)

  -- All tasks and a new one.
  replay-pushed :
      (h : History Task) (canvas w : World) (t : Task)
      → w ≡ replay (is_drawn class h) (draws class) h.tasks canvas
      → (if is_drawn class h t then draws class t w else w)
        ≡ replay
            (is_drawn class h)
            (draws class)
            (take (length (h.tasks ++ (t ∷ []))) (h.tasks ++ (t ∷ [])))
            canvas
  unfolding replay
  replay-pushed h canvas w t e =
      rw
        (
          take-length (h.tasks ++ (t ∷ [])),
          replay-append (is_drawn class h) (draws class) h.tasks (t ∷ []) canvas,
          ← e,
        )
        refl

  -- A new task keeps what is drawn right: out of playback it is drawn at once if its owner may draw,
  -- and in playback it is only listed.
  pub execute_task-Shows :
      (h : History Task) (canvas w : World) (task : Task) (send_data : Bool)
      → Shows h canvas w
      → Shows
          (execute_task class task send_data h w).1
          canvas
          (execute_task class task send_data h w).2
  unfolding execute_task
  execute_task-Shows h canvas w task send_data s = elim (Bool-cases (is_playback_mode h)) [
    | inl playback ↦ rw playback (record {
      count = s.count;
      reached = played s.count (still-played h s.count s.reached playback).0 (
          omega (
            arith,
            (still-played h s.count s.reached playback).1,
            length-append h.tasks (sent ∷ []),
          ));
      drawn =
          s.drawn
          ∙ ap (λ ts. replay (is_drawn class h) (draws class) ts canvas)
              (sym (
                take-append_of_le s.count h.tasks (sent ∷ [])
                  (still-played h s.count s.reached playback).1));
    })
    | inr live ↦ elim (Bool-cases (is_drawn class h sent)) [
      | inl may_draw ↦
          rw (live, may_draw)
            (record {
              count = length (h.tasks ++ (sent ∷ []));
              reached = played _ refl (omega arith);
              drawn =
                  subst
                    (λ b.
                      (if b then draws class sent w else w)
                      ≡ replay (is_drawn class h) (draws class)
                          (take (length (h.tasks ++ (sent ∷ []))) (h.tasks ++ (sent ∷ []))) canvas)
                    may_draw (replay-pushed h canvas w sent (whole live));
            })
      | inr may_not ↦
          rw (live, may_not)
            (record {
              count = length (h.tasks ++ (sent ∷ []));
              reached = played _ refl (omega arith);
              drawn =
                  subst
                    (λ b.
                      (if b then draws class sent w else w)
                      ≡ replay (is_drawn class h) (draws class)
                          (take (length (h.tasks ++ (sent ∷ []))) (h.tasks ++ (sent ∷ []))) canvas)
                    may_not (replay-pushed h canvas w sent (whole live));
            })
    ]
  ]
    where
      sent : Task
      sent = class.set_send_data send_data task

      whole :
          is_playback_mode h ≡ false → w ≡ replay (is_drawn class h) (draws class) h.tasks canvas
      whole live =
          s.drawn
          ∙ ap (λ ts. replay (is_drawn class h) (draws class) ts canvas)
              (all-played h s.count s.reached live)
