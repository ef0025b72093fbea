-- ===== src/Slicer/Parse.antt =====
-- PacketSlicer.h: the loop of `parse` as a run of steps.
use shared_painter.Common.{
  ℕ, zero, suc, ◌<◌, ◌≡◌, refl, sym, ap, subst, ◌∙◌, arith, [], length, some, ◌≢◌,
}
use shared_painter.Slicer.{
  Slicer, Step, State, more, wait, reject, caught, uncaught, broken, do_parse, parse_loop, parse,
  unless_done,
}
use shared_painter.Slicer.Invariant.{IsSound, EndsSound, Staged}
use shared_painter.Slicer.Sound.{do_parse-EndsSound}

-- A run of the loop: steps that return true, then one that returns false.
pub data Runs : Slicer → Step → Type 0 where
  stops : {s : Slicer} {t : Step} → do_parse s ≡ t → t.0 ≢ more → Runs s t
  goes : {s u : Slicer} {t : Step} → do_parse s ≡ (more, u) → Runs u t → Runs s t

-- How the loop ends: for want of bytes, or with a slicer that `init` has emptied.
pub data Ended : Step → Type 0 where
  waits : {s : Slicer} → IsSound s → Ended (wait, s)
  rejects : {s : Slicer} → IsSound s → Ended (reject, s)

-- With more fuel than bytes the loop ends, by a run.
parse_loop-Runs :
    (fuel : ℕ) (s : Slicer)
    → length s.buffer.bytes < fuel
    → IsSound s
    → (t : Step) × (parse_loop fuel s ≡ some t) × Runs s t × Ended t
unfolding parse_loop
parse_loop-Runs zero s h v = absurd (omega arith)
parse_loop-Runs (suc fuel) s h v =
    go (parse_loop-Runs fuel) (do_parse s) refl (do_parse-EndsSound s v)
  where
    go :
        ((u : Slicer)
          → length u.buffer.bytes < fuel
          → IsSound u
          → (t : Step) × (parse_loop fuel u ≡ some t) × Runs u t × Ended t)
        → (r : Step) → do_parse s ≡ r
        → EndsSound (length s.buffer.bytes) r
        → (t : Step) × (unless_done (do_parse s) (parse_loop fuel) ≡ some t) × Runs s t × Ended t
    go next (more, u) e w = let (t, p, q, r) = next u (omega arith) w.0 in (t, rw e p, goes e q, r)
    go next (wait, u) e w = ((wait, u), rw e, stops e (λ p. cc), waits w)
    go next (reject, u) e w = ((reject, u), rw e, stops e (λ p. cc), rejects w)
    go next (caught, u) e w = absurd w
    go next (uncaught, u) e w = absurd w
    go next (broken, u) e w = absurd w

-- `parsedItems_.clear()` at the start of `parse`.
abbrev pub cleared : Slicer → Slicer
cleared s = record s { parsed_items = [] }

pub cleared-IsSound : (s : Slicer) → IsSound s → IsSound (cleared s)
cleared-IsSound s v = record {
  counted = record {
    placed = v.counted.placed;
    synced = v.counted.synced;
    octets = v.counted.octets;
  };
  staged = staged s.state v.staged;
}
  where
    staged : (t : State) → Staged t s → Staged t (cleared s)
    staged State.init h = h
    staged State.header_magic h = h
    staged State.header_code h = h
    staged State.header_from_id h = h
    staged State.header_to_id h = h
    staged State.header_blen h = h
    staged State.body h = h

-- On a sound slicer the loop of `parse` ends: it is a run of steps from the slicer with no packets
-- cut, and its end is a wait for bytes or an emptied slicer, sound either way.
pub parse-Runs :
    (s : Slicer) → IsSound s → (t : Step) × (parse s ≡ some t) × Runs (cleared s) t × Ended t
unfolding parse
parse-Runs s v =
    parse_loop-Runs (suc (length s.buffer.bytes)) (cleared s) (omega arith) (cleared-IsSound s v)

pub Runs-unique : {s : Slicer} {t u : Step} → Runs s t → Runs s u → t ≡ u
Runs-unique (stops e h) (stops f k) = sym e ∙ f
Runs-unique (stops e h) (goes f r) = absurd (h (ap (λ x. x.0) (sym e ∙ f)))
Runs-unique (goes e r) (stops f k) = absurd (k (ap (λ x. x.0) (sym f ∙ e)))
Runs-unique {t} (goes e r) (goes f q) =
    Runs-unique (subst (λ x. Runs x t) (ap (λ x. x.1) (sym e ∙ f)) r) q

-- What a run finds is what `parse` returns.
pub parse-of_Runs : (s : Slicer) {t : Step} → IsSound s → Runs (cleared s) t → parse s ≡ some t
parse-of_Runs s v r = let (t, p, q, e) = parse-Runs s v in p ∙ ap some (Runs-unique q r)
