-- ===== src/Slicer/Resume.antt =====
-- PacketSlicer.h, doParse: a step that waits, with more bytes in the buffer.
use shared_painter.Common.{
  ℕ, ◌+◌, ◌≤◌, ◌<◌, ◌≡◌, refl, ap, ◌∙◌, ◌≢◌, arith, List, [], ◌++◌, length, length-append, take,
  ltb, leb, lt→ltb, le→ltb, Bool-cases, inl, inr, ◌==◌,
}
use shared_painter.Buffer.{Method}
use shared_painter.Buffer.Queue.{IsPlaced, unread}
use shared_painter.Buffer.Words.{unread-room}
use shared_painter.Slicer.{
  Slicer, Packet, Step, State, more, wait, reject, caught, uncaught, broken, Side, from, to, need,
  initialize, read_id, read_id_text, id_len, set_id_len, set_id, with_id, with_id_len, with_blen,
  to_blen, to_to_id, with_code, with_magic, parse_magic, parse_code, parse_from_id, parse_to_id,
  parse_blen, parse_body, parse_from, do_parse, start_header, code_max, max_packet_body_size,
  net_magic_code,
}
use shared_painter.Slicer.Body.{body-cases, body-wait, body-cut, cut-grow}
use shared_painter.Slicer.Grow.{
  grow, took, Takes, Takes-read, Takes-int8, Takes-int16, Takes-int32, need-wait, need-ready,
  need-ready_grow, grow-IsPlaced, unread-grow, few_or_enough,
}

-- `r'` is the step `r` with more bytes in the buffer: the same step if `r` had enough of them, and
-- the next step from where `r` stopped if it waits, which waits on if there is nothing new.
abbrev pub Extends : List Packet → List ℕ → Step → Step → Type 0
Extends before bs (wait, s) r' =
    (do_parse (grow before bs s) ≡ r') × (bs ≡ [] → r' ≡ (wait, grow before bs s))
Extends before bs (more, s) r' = r' ≡ (more, grow before bs s)
Extends before bs (reject, s) r' = r' ≡ (reject, s)
Extends before bs (caught, s) r' = Unit {0}
Extends before bs (uncaught, s) r' = Unit {0}
Extends before bs (broken, s) r' = Unit {0}

do_parse-at : {t : State} (s : Slicer) → s.state ≡ t → do_parse s ≡ parse_from t s
unfolding do_parse
do_parse-at s e = ap (λ t. parse_from t s) e

took-IsPlaced :
    (n : ℕ) (s : Slicer)
    → IsPlaced s.buffer
    → n ≤ length (unread s.buffer)
    → IsPlaced (took n s).buffer
took-IsPlaced n s h enough = unread-room s.buffer n h enough

module _ (before : List Packet) (bs : List ℕ) where
  few_grow :
      {n : ℕ} (s : Slicer)
      → IsPlaced s.buffer
      → bs ≡ []
      → length (unread s.buffer) < n
      → length (unread (grow before bs s).buffer) < n
  few_grow s h e few =
      rw (unread-grow before bs s h)
        (omega (arith, ap length e, length-append (unread s.buffer) bs))

  need-Extends :
      {A : Type 0} {n : ℕ} {m : Method A} {value : List ℕ → A} (s : Slicer) (k : A → Slicer → Step)
      → Takes m n value
      → IsPlaced s.buffer
      → do_parse (grow before bs s) ≡ need n m (grow before bs s) k
      → (n ≤ length (unread s.buffer)
          → (v : A) → Extends before bs (k v (took n s)) (k v (grow before bs (took n s))))
      → Extends before bs (need n m s k) (need n m (grow before bs s) k)
  need-Extends {n} {m} {value} s k t h resume next =
      elim (few_or_enough n (length (unread s.buffer))) [
        | inl few ↦ rw (need-wait n m s k h few) (
          resume,
          λ e.
              need-wait n m (grow before bs s) k (grow-IsPlaced before bs s h) (few_grow s h e few),
        )
        | inr enough ↦
            rw (need-ready s k t h enough, need-ready_grow before bs s k t h enough)
              (next enough (value (take n (unread s.buffer))))
      ]

  body-Extends :
      (s : Slicer)
      → s.state ≡ State.body
      → IsPlaced s.buffer
      → Extends before bs (parse_body s) (parse_body (grow before bs s))
  unfolding parse_from
  body-Extends s e h = elim (body-cases s h) [
    | inl few ↦ rw (body-wait s h few) (
      do_parse-at (grow before bs s) e,
      λ p. body-wait (grow before bs s) (grow-IsPlaced before bs s h) (few_grow s h p few),
    )
    | inr (inl (all, room)) ↦
        rw
          (
            body-cut s h all room,
            body-cut (grow before bs s) (grow-IsPlaced before bs s h) (more_unread s h all)
                (more_bytes s room),
          )
          (ap (λ t. (more, t)) (cut-grow before bs s room))
    | inr (inr faults) ↦ rw faults tt
  ]
    where
      more_unread :
          (s : Slicer)
          → IsPlaced s.buffer
          → s.curr_body_len ≤ length (unread s.buffer)
          → s.curr_body_len ≤ length (unread (grow before bs s).buffer)
      more_unread s h all =
          rw (unread-grow before bs s h) (omega (arith, length-append (unread s.buffer) bs))

      more_bytes :
          (s : Slicer)
          → s.curr_header_len + s.curr_body_len ≤ length s.buffer.bytes
          → s.curr_header_len + s.curr_body_len ≤ length (s.buffer.bytes ++ bs)
      more_bytes s room = omega (arith, length-append s.buffer.bytes bs)

  rejected-grow :
      (s : Slicer) → ◌≡◌ {A = Step} (reject, initialize (grow before bs s)) (reject, initialize s)
  unfolding initialize
  rejected-grow s = refl

  blen-Extends :
      (s : Slicer)
      → s.state ≡ State.header_blen
      → IsPlaced s.buffer
      → Extends before bs (parse_blen s) (parse_blen (grow before bs s))
  unfolding parse_blen parse_from
  blen-Extends s e h =
      need-Extends s with_blen Takes-int32 h (do_parse-at (grow before bs s) e) λ enough n.
        elim (Bool-cases (ltb max_packet_body_size n)) [
          | inl big ↦ rw big (rejected-grow (record (took 4 s) { curr_body_len = n }))
          | inr fits ↦ rw fits (
              body-Extends (record (took 4 s) { curr_body_len = n; state = State.body }) refl
                (took-IsPlaced 4 s h enough))
        ]

  -- An id of either side: its length byte, then its text; `k` is what comes behind it.
  module _ (k : Slicer → Step) (t : State) where
    abbrev Behind : Type 0
    Behind =
        (s : Slicer)
        → s.state ≡ t
        → IsPlaced s.buffer
        → Extends before bs (k s) (k (grow before bs s))

    text-Extends :
        (side : Side) (s : Slicer)
        → s.state ≡ t
        → IsPlaced s.buffer
        → (0 < id_len side s → do_parse (grow before bs s) ≡ read_id_text side k (grow before bs s))
        → Behind
        → Extends before bs (read_id_text side k s) (read_id_text side k (grow before bs s))
    unfolding read_id_text
    text-Extends from s e h resume next = elim (few_or_enough 1 s.curr_from_id_len) [
      | inl none ↦ rw (le→ltb 0 s.curr_from_id_len (omega arith)) (next s e h)
      | inr some ↦ rw (lt→ltb 0 s.curr_from_id_len some) (
          need-Extends s (with_id from k) (Takes-read s.curr_from_id_len) h
            (resume some ∙ rw (lt→ltb 0 s.curr_from_id_len some))
            λ enough id.
              next (set_id from id (took s.curr_from_id_len s)) e
                (took-IsPlaced s.curr_from_id_len s h enough))
    ]
    text-Extends to s e h resume next = elim (few_or_enough 1 s.curr_to_id_len) [
      | inl none ↦ rw (le→ltb 0 s.curr_to_id_len (omega arith)) (next s e h)
      | inr some ↦ rw (lt→ltb 0 s.curr_to_id_len some) (
          need-Extends s (with_id to k) (Takes-read s.curr_to_id_len) h
            (resume some ∙ rw (lt→ltb 0 s.curr_to_id_len some))
            λ enough id.
              next (set_id to id (took s.curr_to_id_len s)) e
                (took-IsPlaced s.curr_to_id_len s h enough))
    ]

    -- In state `t` a step resumes this id.
    abbrev ResumesId : Side → Type 0
    ResumesId side = (s : Slicer) → s.state ≡ t → do_parse s ≡ read_id side k s

    id_text :
        (side : Side) (s : Slicer) → 0 < id_len side s → read_id side k s ≡ read_id_text side k s
    unfolding read_id
    id_text side s some = rw (lt→ltb 0 (id_len side s) some)

    id-Extends :
        (side : Side) (s : Slicer)
        → s.state ≡ t
        → IsPlaced s.buffer
        → ResumesId side
        → Behind
        → Extends before bs (read_id side k s) (read_id side k (grow before bs s))
    unfolding read_id
    id-Extends from s e h resume next = elim (few_or_enough 1 s.curr_from_id_len) [
      | inl none ↦ rw (le→ltb 0 s.curr_from_id_len (omega arith)) (
          need-Extends s (with_id_len from k) Takes-int8 h
            (resume (grow before bs s) e ∙ rw (le→ltb 0 s.curr_from_id_len (omega arith)))
            λ enough n.
              let s' : Slicer = set_id_len from n (took 1 s) in
              text-Extends from s' e (took-IsPlaced 1 s h enough)
                (λ some. resume (grow before bs s') e ∙ id_text from (grow before bs s') some) next)
      | inr some ↦ rw (lt→ltb 0 s.curr_from_id_len some) (
          text-Extends from s e h
            (λ _. resume (grow before bs s) e ∙ id_text from (grow before bs s) some) next)
    ]
    id-Extends to s e h resume next = elim (few_or_enough 1 s.curr_to_id_len) [
      | inl none ↦ rw (le→ltb 0 s.curr_to_id_len (omega arith)) (
          need-Extends s (with_id_len to k) Takes-int8 h
            (resume (grow before bs s) e ∙ rw (le→ltb 0 s.curr_to_id_len (omega arith)))
            λ enough n.
              let s' : Slicer = set_id_len to n (took 1 s) in
              text-Extends to s' e (took-IsPlaced 1 s h enough)
                (λ some. resume (grow before bs s') e ∙ id_text to (grow before bs s') some) next)
      | inr some ↦ rw (lt→ltb 0 s.curr_to_id_len some) (
          text-Extends to s e h
            (λ _. resume (grow before bs s) e ∙ id_text to (grow before bs s) some) next)
    ]

  to_id-Extends :
      (s : Slicer)
      → s.state ≡ State.header_to_id
      → IsPlaced s.buffer
      → Extends before bs (parse_to_id s) (parse_to_id (grow before bs s))
  unfolding parse_to_id parse_from
  to_id-Extends s e h =
      id-Extends to_blen State.header_to_id to s e h do_parse-at
        λ t _ p. blen-Extends (record t { state = State.header_blen }) refl p

  from_id-Extends :
      (s : Slicer)
      → s.state ≡ State.header_from_id
      → IsPlaced s.buffer
      → Extends before bs (parse_from_id s) (parse_from_id (grow before bs s))
  unfolding parse_from_id parse_from
  from_id-Extends s e h =
      id-Extends to_to_id State.header_from_id from s e h do_parse-at
        λ t _ p. to_id-Extends (record t { state = State.header_to_id }) refl p

  code-Extends :
      (s : Slicer)
      → s.state ≡ State.header_code
      → IsPlaced s.buffer
      → Extends before bs (parse_code s) (parse_code (grow before bs s))
  unfolding parse_code parse_from
  code-Extends s e h =
      need-Extends s with_code Takes-int16 h (do_parse-at (grow before bs s) e) λ enough n.
        elim (Bool-cases (leb code_max n)) [
          | inl big ↦ rw big (rejected-grow (record (took 2 s) { curr_code = n }))
          | inr fits ↦ rw fits (
              from_id-Extends (record (took 2 s) { curr_code = n; state = State.header_from_id })
                refl (took-IsPlaced 2 s h enough))
        ]

  magic-Extends :
      (s : Slicer)
      → s.state ≡ State.header_magic
      → IsPlaced s.buffer
      → Extends before bs (parse_magic s) (parse_magic (grow before bs s))
  unfolding parse_magic parse_from
  magic-Extends s e h =
      need-Extends (start_header s) with_magic Takes-int16 h
        (do_parse-at (grow before bs (start_header s)) e)
        λ enough n. elim (Bool-cases (n == net_magic_code)) [
          | inl magic ↦ rw magic (
              code-Extends (record (took 2 (start_header s)) { state = State.header_code }) refl
                (took-IsPlaced 2 s h enough))
          | inr other ↦ rw other (rejected-grow (took 2 (start_header s)))
        ]

  from-Extends :
      (t : State) (s : Slicer)
      → s.state ≡ t
      → t ≢ State.init
      → IsPlaced s.buffer
      → Extends before bs (parse_from t s) (parse_from t (grow before bs s))
  unfolding parse_from
  from-Extends State.init s e running h = absurd (running refl)
  from-Extends State.header_magic s e running h = magic-Extends s e h
  from-Extends State.header_code s e running h = code-Extends s e h
  from-Extends State.header_from_id s e running h = from_id-Extends s e h
  from-Extends State.header_to_id s e running h = to_id-Extends s e h
  from-Extends State.header_blen s e running h = blen-Extends s e h
  from-Extends State.body s e running h = body-Extends s e h

  -- A step on more bytes extends the step on fewer.
  pub do_parse-Extends :
      (s : Slicer)
      → s.state ≢ State.init
      → IsPlaced s.buffer
      → Extends before bs (do_parse s) (do_parse (grow before bs s))
  unfolding do_parse
  do_parse-Extends s running h = from-Extends s.state s refl running h
