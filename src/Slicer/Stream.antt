-- ===== src/Slicer/Stream.antt =====
-- PacketSlicer.h: the receive events of a connection against the packets that were sent on it.
use shared_painter.Common.{
  ℕ, ◌≡◌, refl, sym, ap, subst, ◌∙◌, arith, List, [], ◌∷◌, ◌++◌, append-nil, append_assoc, length,
  some, All, All-append, ◌≢◌, length-drop,
}
use shared_painter.Buffer
use shared_painter.Slicer.{
  Slicer, Packet, Step, State, wait, reject, do_parse, parse_from, parse_magic, start_header,
  with_magic, add_buffer, receive, receive_all, receive_then, new_slicer,
}
use shared_painter.Slicer.Grow.{need-wait}
use shared_painter.Slicer.Invariant.{IsOctet, IsSound, EndsSound}
use shared_painter.Slicer.Sound.{do_parse-EndsSound}
use shared_painter.Slicer.Parse.{
  Runs, stops, goes, cleared, cleared-IsSound, parse-Runs, parse-of_Runs, Ended, waits, rejects,
}
use shared_painter.Slicer.Chunks.{prepend, receive-append, add_buffer-IsSound, same}
use shared_painter.Slicer.Frame.{Delivers, IsSendable, carried, carry, framed, do_parse-framed}

abbrev pub flatten : List (List ℕ) → List ℕ
flatten [] = []
flatten (c ∷ cs) = c ++ flatten cs

-- The bytes of packets one behind the other.
abbrev pub wire : List Packet → List ℕ
wire [] = []
wire (p ∷ ps) = framed p ++ wire ps

-- What is reported for them: an empty id is that of the packet before, `from` and `to` at first.
abbrev pub reported : List ℕ → List ℕ → List Packet → List Packet
reported from to [] = []
reported from to (p ∷ ps) =
    record p { from_id = carry from p.from_id; to_id = carry to p.to_id }
    ∷ reported (carry from p.from_id) (carry to p.to_id) ps

-- Receiving always ends, and leaves a sound slicer.
pub receive-Ended :
    (bs : List ℕ) (s : Slicer)
    → All IsOctet bs
    → IsSound s
    → (t : Step) × (receive bs s ≡ some t) × Ended t
unfolding receive
receive-Ended bs s o v =
    let (t, p, r, d) = parse-Runs (add_buffer bs s) (add_buffer-IsSound bs s o v) in (t, p, d)

All-flatten : (cs : List (List ℕ)) → All (All IsOctet) cs → All IsOctet (flatten cs)
All-flatten [] h = tt
All-flatten (c ∷ cs) h = All-append IsOctet c (flatten cs) h.0 (All-flatten cs h.1)

waits_not : {x y : Slicer} → ◌≢◌ {A = Step} (reject, x) (wait, y)
waits_not e = cc

-- If the bytes of all events, received at once, are not rejected, then the events hand on the same
-- packets, and leave the same slicer but for the list of the last event's packets.
pub receive_all-flatten :
    (c : List ℕ) (cs : List (List ℕ)) (s u : Slicer)
    → All IsOctet c
    → All (All IsOctet) cs
    → IsSound s
    → receive (flatten (c ∷ cs)) s ≡ some (wait, u)
    → (w : Slicer) × (receive_all (c ∷ cs) s ≡ some (u.parsed_items, w)) × (cleared w ≡ cleared u)
unfolding receive_all
receive_all-flatten c [] s u o os v e =
    (u, rw (subst (λ t. receive t s ≡ some (wait, u)) (append-nil c) e, append-nil), refl)
receive_all-flatten c (d ∷ ds) s u o os v e =
    split (receive-Ended c s o v) (receive_all-flatten d ds)
  where
    rest : List ℕ
    rest = flatten (d ∷ ds)

    octets : All IsOctet rest
    octets = All-flatten (d ∷ ds) os

    both : (t : Step) → receive (c ++ rest) s ≡ some t → t ≡ (wait, u)
    both t h = same (sym h ∙ e)

    split :
        (t : Step) × (receive c s ≡ some t) × Ended t
        → ((x y : Slicer)
            → All IsOctet d
            → All (All IsOctet) ds
            → IsSound x
            → receive rest x ≡ some (wait, y)
            → (w : Slicer) × (receive_all (d ∷ ds) x ≡ some (y.parsed_items, w))
              × (cleared w ≡ cleared y))
        → (w : Slicer) × (receive_then (receive c s) (receive_all (d ∷ ds))
            ≡ some (u.parsed_items, w))
          × (cleared w ≡ cleared u)
    split (t, p, waits {s = x} vx) next = onward (receive-Ended rest x octets vx)
      where
        onward :
            (r : Step) × (receive rest x ≡ some r) × Ended r
            → (w : Slicer) × (receive_then (receive c s) (receive_all (d ∷ ds))
                ≡ some (u.parsed_items, w))
              × (cleared w ≡ cleared u)
        onward (r, q, waits {s = y} vy) =
            let (w, runs, left) = next x y os.0 os.1 vx q in
            let joined : prepend x.parsed_items y ≡ u =
              ap (λ k. k.1)
                (both (wait, prepend x.parsed_items y)
                  ((receive-append c rest s o octets v).0 x y p q)) in
            (w, rw (p, runs, ← joined) refl, left ∙ ap cleared joined)
        onward (r, q, rejects {s = y} vy) =
            absurd (waits_not (both (reject, y) ((receive-append c rest s o octets v).1 x y p q)))
    split (t, p, rejects {s = x} vx) next =
        absurd (waits_not (both (reject, x) ((receive-append c rest s o octets v).2 x p)))

-- What is left of a stream that ends behind a packet: nothing is unread, and these were handed on.
record Idles (items : List Packet) (s : Slicer) : Type 0 where
  run_to : Slicer
  runs : Runs s (wait, run_to)
  handed : run_to.parsed_items ≡ items
  nothing_left : run_to.buffer.bytes ≡ []
  at_magic : run_to.state ≡ State.header_magic

empty-wait :
    (s : Slicer)
    → IsSound s
    → s.state ≡ State.header_magic
    → s.buffer.bytes ≡ []
    → do_parse s ≡ (wait, start_header s)
unfolding do_parse parse_from parse_magic
empty-wait s v e b =
    subst (λ t. parse_from t s ≡ (wait, start_header s)) (sym e)
      (need-wait 2 Buffer.read_int16 (start_header s) with_magic v.counted.placed
        (omega (arith, length-drop s.buffer.read_pos s.buffer.bytes, ap length b)))

after-Idles :
    (p : Packet) (ps : List Packet) (rest : List ℕ) (s : Slicer)
    → (d : Delivers s.parsed_items (carried s p) rest (do_parse s))
    → Idles (d.after.parsed_items ++ reported d.after.curr_from_id d.after.curr_to_id ps) d.after
    → Idles (s.parsed_items ++ reported s.curr_from_id s.curr_to_id (p ∷ ps)) s
after-Idles p ps rest s d next = record {
  run_to = next.run_to;
  runs = goes d.step next.runs;
  handed =
      next.handed
      ∙ rw (d.delivered, d.from_kept, d.to_kept)
          (append_assoc s.parsed_items (carried s p ∷ [])
            (reported (carry s.curr_from_id p.from_id) (carry s.curr_to_id p.to_id) ps));
  nothing_left = next.nothing_left;
  at_magic = next.at_magic;
}

wire-Idles :
    (ps : List Packet) (s : Slicer)
    → All IsSendable ps
    → IsSound s
    → s.state ≡ State.header_magic
    → s.buffer.bytes ≡ wire ps
    → Idles (s.parsed_items ++ reported s.curr_from_id s.curr_to_id ps) s
wire-Idles [] s h v e b = record {
  run_to = start_header s;
  runs = stops (empty-wait s v e b) (λ k. cc);
  handed = sym (append-nil s.parsed_items);
  nothing_left = b;
  at_magic = e;
}
wire-Idles (p ∷ ps) s h v e b =
    let d : Delivers s.parsed_items (carried s p) (wire ps) (do_parse s) =
      do_parse-framed s p (wire ps) v e h.0 b in
    let sound : IsSound d.after =
      (subst (EndsSound (length s.buffer.bytes)) d.step (do_parse-EndsSound s v)).0 in
    after-Idles p ps (wire ps) s d (wire-Idles ps d.after h.1 sound d.idle d.left)

-- A slicer between two packets with nothing unread, as a new connection has it.
pub record IsIdle (s : Slicer) : Type 0 where
  pub sound : IsSound s
  pub at_start : s.state ≡ State.header_magic
  pub unfilled : s.buffer.bytes ≡ []

pub new_slicer-IsIdle : IsIdle new_slicer
unfolding new_slicer Buffer.empty
new_slicer-IsIdle = record {
  sound = record {
    counted = record { placed = omega arith; synced = refl; octets = tt };
    staged = refl;
  };
  at_start = refl;
  unfilled = refl;
}

-- However the bytes of sendable packets are cut into one or more receive events, an idle slicer
-- hands on exactly those packets in their order, each with its code and body and with its ids, an
-- empty id being that of the packet before, and the slicer has no bytes left behind them.
pub receive_all-wire :
    (ps : List Packet) (c : List ℕ) (cs : List (List ℕ)) (s : Slicer)
    → IsIdle s
    → All IsSendable ps
    → All IsOctet c
    → All (All IsOctet) cs
    → flatten (c ∷ cs) ≡ wire ps
    → (w : Slicer) × (receive_all (c ∷ cs) s ≡ some (reported s.curr_from_id s.curr_to_id ps, w))
      × (w.buffer.bytes ≡ [])
      × (w.state ≡ State.header_magic)
unfolding receive add_buffer
receive_all-wire ps c cs s idle h o os e =
    let (w, runs, left) = receive_all-flatten c cs s r.run_to o os idle.sound once in
    (
      w,
      rw runs (ap (λ t. some (t, w)) r.handed),
      ap (λ t. t.buffer.bytes) left ∙ r.nothing_left,
      ap (λ t. t.state) left ∙ r.at_magic,
    )
  where
    grown : Slicer
    grown = add_buffer (flatten (c ∷ cs)) s

    grown-sound : IsSound grown
    grown-sound = add_buffer-IsSound (flatten (c ∷ cs)) s (All-flatten (c ∷ cs) (o, os)) idle.sound

    filled : (cleared grown).buffer.bytes ≡ wire ps
    filled = rw idle.unfilled e

    r : Idles (reported s.curr_from_id s.curr_to_id ps) (cleared grown)
    r = wire-Idles ps (cleared grown) h (cleared-IsSound grown grown-sound) idle.at_start filled

    once : receive (flatten (c ∷ cs)) s ≡ some (wait, r.run_to)
    once = parse-of_Runs grown grown-sound r.runs
