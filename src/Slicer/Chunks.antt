-- ===== src/Slicer/Chunks.antt =====
-- PacketSlicer.h, addBuffer and parse: two receive events against one.
use shared_painter.Common.{
  ℕ, ◌≡◌, refl, sym, ap, ap₂, subst, ◌∙◌, arith, List, [], ◌++◌, append-nil, append_assoc, length,
  length-append, some, All, All-append,
}
use shared_painter.Slicer.{
  Slicer, Packet, Step, State, more, wait, reject, do_parse, add_buffer, receive,
}
use shared_painter.Slicer.Grow.{grow}
use shared_painter.Slicer.Resume.{Extends, do_parse-Extends}
use shared_painter.Slicer.Invariant.{IsOctet, IsSound, EndsSound, Staged}
use shared_painter.Slicer.Sound.{do_parse-EndsSound, IsSound-ne-init}
use shared_painter.Slicer.Parse.{
  Runs, stops, goes, cleared, cleared-IsSound, parse-Runs, parse-of_Runs, Ended, waits, rejects,
}

module _ (before : List Packet) (bs : List ℕ) where
  step-Extends :
      {r : Step} (s : Slicer)
      → IsSound s
      → do_parse s ≡ r
      → Extends before bs r (do_parse (grow before bs s))
  step-Extends s v e =
      subst (λ t. Extends before bs t (do_parse (grow before bs s))) e
        (do_parse-Extends before bs s (IsSound-ne-init s v) v.counted.placed)

  pub next-IsSound : {u : Slicer} (s : Slicer) → IsSound s → do_parse s ≡ (more, u) → IsSound u
  next-IsSound s v e = (subst (EndsSound (length s.buffer.bytes)) e (do_parse-EndsSound s v)).0

  Runs-same : {t : Step} {s u : Slicer} → do_parse s ≡ do_parse u → Runs s t → Runs u t
  Runs-same e (stops p h) = stops (sym e ∙ p) h
  Runs-same e (goes p r) = goes (sym e ∙ p) r

  -- A run that waits goes on, with more bytes, from where it stopped.
  Runs-wait :
      {r : Step} (s : Slicer)
      → IsSound s
      → Runs s r
      → (u : Slicer) (t : Step) → r ≡ (wait, u)
      → Runs (grow before bs u) t
      → Runs (grow before bs s) t
  Runs-wait s v (stops e h) u t p q = Runs-same (step-Extends s v (e ∙ p)).0 q
  Runs-wait s v (goes {u = x} e r) u t p q =
      goes (step-Extends s v e) (Runs-wait x (next-IsSound s v e) r u t p q)

  -- With no new bytes it stops there again.
  Runs-wait_nil :
      {r : Step} (s : Slicer)
      → IsSound s
      → bs ≡ []
      → Runs s r
      → (u : Slicer) → r ≡ (wait, u)
      → Runs (grow before bs s) (wait, grow before bs u)
  Runs-wait_nil s v e₀ (stops e h) u p = stops ((step-Extends s v (e ∙ p)).1 e₀) (λ k. cc)
  Runs-wait_nil s v e₀ (goes {u = x} e r) u p =
      goes (step-Extends s v e) (Runs-wait_nil x (next-IsSound s v e) e₀ r u p)

  -- A run that rejects does so whatever comes behind.
  Runs-reject :
      {r : Step} (s : Slicer)
      → IsSound s
      → Runs s r
      → (u : Slicer) → r ≡ (reject, u)
      → Runs (grow before bs s) (reject, u)
  Runs-reject s v (stops e h) u p = stops (step-Extends s v (e ∙ p)) (λ k. cc)
  Runs-reject s v (goes {u = x} e r) u p =
      goes (step-Extends s v e) (Runs-reject x (next-IsSound s v e) r u p)

pub add_buffer-IsSound :
    (bs : List ℕ) (s : Slicer) → All IsOctet bs → IsSound s → IsSound (add_buffer bs s)
unfolding add_buffer
add_buffer-IsSound bs s o v = record {
  counted = record {
    placed = omega (arith, v.counted.placed, length-append s.buffer.bytes bs);
    synced = v.counted.synced;
    octets = All-append IsOctet s.buffer.bytes bs v.counted.octets o;
  };
  staged = staged s.state v.staged;
}
  where
    staged : (t : State) → Staged t s → Staged t (add_buffer bs s)
    staged State.init h = h
    staged State.header_magic h = h
    staged State.header_code h = h
    staged State.header_from_id h = h
    staged State.header_to_id h = h
    staged State.header_blen h = h
    staged State.body h = h

-- The packets `before` stand before those that were cut.
abbrev pub prepend : List Packet → Slicer → Slicer
prepend before s = record s { parsed_items = before ++ s.parsed_items }

pub same : {t u : Step} → some t ≡ some u → t ≡ u
same e = cc

pub receive-Runs :
    (bs : List ℕ) (s : Slicer) (t : Step)
    → All IsOctet bs
    → IsSound s
    → receive bs s ≡ some t
    → Runs (cleared (add_buffer bs s)) t × Ended t
unfolding receive
receive-Runs bs s t o v e =
    let (u, p, r, d) = parse-Runs (add_buffer bs s) (add_buffer-IsSound bs s o v) in
    let q : u ≡ t = same (sym p ∙ e) in
    (subst (Runs (cleared (add_buffer bs s))) q r, subst Ended q d)

-- `waits` holds the slicer that the run left, and so does `rejects`.
pub Ended-IsSound : {t : Step} → Ended t → IsSound t.1
Ended-IsSound (waits v) = v
Ended-IsSound (rejects v) = v

module _ (xs ys : List ℕ) (s : Slicer) (ox : All IsOctet xs) (oy : All IsOctet ys)
    (v : IsSound s) where
  together : cleared (add_buffer (xs ++ ys) s) ≡ grow [] ys (cleared (add_buffer xs s))
  unfolding add_buffer
  together =
      ap
        (λ t. record s {
          buffer = record { bytes = t; read_pos = s.buffer.read_pos };
          parsed_items = [];
        })
        (sym (append_assoc s.buffer.bytes xs ys))

  received-IsSound : IsSound (add_buffer (xs ++ ys) s)
  received-IsSound = add_buffer-IsSound (xs ++ ys) s (All-append IsOctet xs ys ox oy) v

  first-IsSound : IsSound (cleared (add_buffer xs s))
  first-IsSound = cleared-IsSound (add_buffer xs s) (add_buffer-IsSound xs s ox v)

  -- The run over all the bytes from one over the first and one over what they left.
  whole :
      (u : Slicer) (t : Step)
      → receive xs s ≡ some (wait, u)
      → Runs (grow [] ys u) t
      → receive (xs ++ ys) s ≡ some t
  unfolding receive
  whole u t p r = parse-of_Runs (add_buffer (xs ++ ys) s) received-IsSound (
      subst (λ q. Runs q t) (sym together)
        (Runs-wait [] ys (cleared (add_buffer xs s)) first-IsSound
          (receive-Runs xs s (wait, u) ox v p).0 u t refl r))

  second : (u : Slicer) → grow [] ys u ≡ grow u.parsed_items [] (cleared (add_buffer ys u))
  unfolding add_buffer
  second u =
      ap₂
        (λ t items. record u {
          buffer = record { bytes = t; read_pos = u.buffer.read_pos };
          parsed_items = items;
        })
        (sym (append-nil (u.buffer.bytes ++ ys))) (sym (append-nil u.parsed_items))

  second-IsSound :
      (u : Slicer) → receive xs s ≡ some (wait, u) → IsSound (cleared (add_buffer ys u))
  second-IsSound u p =
      cleared-IsSound (add_buffer ys u)
        (add_buffer-IsSound ys u oy (Ended-IsSound (receive-Runs xs s (wait, u) ox v p).1))

  left-IsSound : (u : Slicer) → receive xs s ≡ some (wait, u) → IsSound u
  left-IsSound u p = Ended-IsSound (receive-Runs xs s (wait, u) ox v p).1

  ungrown : (before : List Packet) (w : Slicer) → grow before [] w ≡ prepend before w
  ungrown before w =
      ap
        (λ t. record w {
          buffer = record { bytes = t; read_pos = w.buffer.read_pos };
          parsed_items = before ++ w.parsed_items;
        })
        (append-nil w.buffer.bytes)

  -- What one receive event of a sound slicer ends in, where its bytes are those of two events. If the
  -- first event would wait and the second behind it too, the one event waits in the state that the
  -- second would leave, but with the packets of the first listed before those of the second. If the
  -- first would wait and the second reject its bytes, the one event rejects, in the state that the
  -- second would leave. If the first would reject its bytes, the one event rejects, in the state that
  -- the first would leave; what a second event would do behind that is not compared.
  pub receive-append :
      ((u w : Slicer)
        → receive xs s ≡ some (wait, u)
        → receive ys u ≡ some (wait, w)
        → receive (xs ++ ys) s ≡ some (wait, prepend u.parsed_items w))
      × ((u w : Slicer)
          → receive xs s ≡ some (wait, u)
          → receive ys u ≡ some (reject, w)
          → receive (xs ++ ys) s ≡ some (reject, w))
      × ((u : Slicer) → receive xs s ≡ some (reject, u) → receive (xs ++ ys) s ≡ some (reject, u))
  unfolding receive
  receive-append = (
    λ u w p q.
        whole u (wait, prepend u.parsed_items w) p
          (subst (λ t. Runs (grow [] ys u) (wait, t)) (ungrown u.parsed_items w)
            (subst (λ t. Runs t (wait, grow u.parsed_items [] w)) (sym (second u))
              (Runs-wait_nil u.parsed_items [] (cleared (add_buffer ys u)) (second-IsSound u p) refl
                (receive-Runs ys u (wait, w) oy (left-IsSound u p) q).0 w refl))),
    λ u w p q.
        whole u (reject, w) p
          (subst (λ t. Runs t (reject, w)) (sym (second u))
            (Runs-reject u.parsed_items [] (cleared (add_buffer ys u)) (second-IsSound u p)
              (receive-Runs ys u (reject, w) oy (left-IsSound u p) q).0 w refl)),
    λ u p. parse-of_Runs (add_buffer (xs ++ ys) s) received-IsSound (
        subst (λ q. Runs q (reject, u)) (sym together)
          (Runs-reject [] ys (cleared (add_buffer xs s)) first-IsSound
            (receive-Runs xs s (reject, u) ox v p).0 u refl)),
  )
