-- ===== src/Slicer/Frame.antt =====
-- PacketSlicer.h, doParse: a step on a buffer with a whole packet at its front.
use shared_painter.Common.{
  ℕ, ◌+◌, ◌%◌, ◌^◌, ◌≤◌, ◌<◌, ◌≡◌, refl, sym, ap, subst, ◌∙◌, arith, true, List, [], ◌∷◌, ◌++◌,
  append_assoc, length, length-append, take, drop, drop-add, take-append_left, drop-append_left,
  All, lt→leb, le→ltb, lt→ltb,
}
use shared_painter.Wire.Bytes.{word_bytes, word_value, length-word_bytes, word_value-word_bytes}
use shared_painter.Wire.Write.{str8}
use shared_painter.Buffer
use shared_painter.Buffer.{Method}
use shared_painter.Buffer.Queue.{IsPlaced, unread, unread-advance}
use shared_painter.Buffer.Words.{unread-room}
use shared_painter.Slicer.{
  Slicer, Packet, Step, State, more, from, to, need, set_id_len, set_id, with_id, with_id_len,
  with_blen, to_blen, to_to_id, with_code, with_magic, read_id, read_id_text, parse_magic,
  parse_code, parse_from_id, parse_to_id, parse_blen, parse_body, do_parse, parse_from,
  start_header, code_max, max_packet_body_size, net_magic_code,
}
use shared_painter.Slicer.Grow.{
  took, Takes, Takes-read, Takes-int8, Takes-int16, Takes-int32, need-ready,
}
use shared_painter.Slicer.Invariant.{IsOctet, Staged, IsCounted, IsSound, took-IsCounted}
use shared_painter.Slicer.Body.{cut, body-cut}
use shared_painter.Builder.{frame}

-- A step that returns true with the packet `p` behind `items`, and `rest` left in the buffer.
pub record Delivers (items : List Packet) (p : Packet) (rest : List ℕ) (r : Step) : Type 0 where
  pub after : Slicer
  pub step : r ≡ (more, after)
  pub delivered : after.parsed_items ≡ items ++ (p ∷ [])
  pub left : after.buffer.bytes ≡ rest
  pub from_kept : after.curr_from_id ≡ p.from_id
  pub to_kept : after.curr_to_id ≡ p.to_id
  pub idle : after.state ≡ State.header_magic
  pub rewound : after.buffer.read_pos ≡ 0

-- Where the next bytes are `xs`, they are what is needed, and `rest` stays unread.
record Next {A : Type 0} (s : Slicer) (r : Step) (k : A → Slicer → Step) (a : A) (n : ℕ)
    (rest : List ℕ) : Type 0 where
  runs : r ≡ k a (took n s)
  counts : IsCounted (took n s)
  leaves : unread (took n s).buffer ≡ rest

need-Next :
    {A : Type 0} {n : ℕ} {m : Method A} {value : List ℕ → A} (s : Slicer) (k : A → Slicer → Step)
    (xs rest : List ℕ)
    → Takes m n value
    → IsCounted s
    → s.buffer.read_pos + n < 2 ^ 16
    → length xs ≡ n
    → unread s.buffer ≡ xs ++ rest
    → Next s (need n m s k) k (value xs) n rest
need-Next {n} {value} s k xs rest t c small len e = record {
  runs =
      need-ready s k t c.placed enough
      ∙ ap (λ ys. k (value ys) (took n s)) (rw (e, ← len) (take-append_left xs rest));
  counts = took-IsCounted n s c small enough;
  leaves = unread-advance s.buffer n ∙ rw (e, ← len) (drop-append_left xs rest);
}
  where
    enough : n ≤ length (unread s.buffer)
    enough = omega (arith, ap length e, length-append xs rest)

body-Delivers :
    (s : Slicer) (text rest : List ℕ)
    → IsCounted s
    → s.buffer.read_pos ≤ 520
    → s.curr_body_len ≡ length text
    → length text ≤ max_packet_body_size
    → unread s.buffer ≡ text ++ rest
    → Delivers s.parsed_items
        (record { code = s.curr_code; from_id = s.curr_from_id; to_id = s.curr_to_id; body = text })
        rest
        (parse_body s)
body-Delivers s text rest c small len fits e = record {
  after = cut s;
  step =
      body-cut s c.placed all
        (omega (arith, c.synced, unread-room s.buffer s.curr_body_len c.placed all));
  delivered = ap (λ t. s.parsed_items ++ (filled t ∷ [])) text_at;
  left = rest_at;
  from_kept = refl;
  to_kept = refl;
  idle = refl;
  rewound = refl;
}
  where
    filled : List ℕ → Packet
    filled t = record {
      code = s.curr_code;
      from_id = s.curr_from_id;
      to_id = s.curr_to_id;
      body = t;
    }

    all : s.curr_body_len ≤ length (unread s.buffer)
    all = omega (arith, len, ap length e, length-append text rest)

    text_at : take s.curr_body_len (drop s.curr_header_len s.buffer.bytes) ≡ text
    text_at = rw (c.synced, e, len) (take-append_left text rest)

    end_at : (s.curr_header_len + s.curr_body_len) % 2 ^ 32 ≡ s.buffer.read_pos + length text
    end_at = omega (arith, c.synced, len)

    rest_at : drop ((s.curr_header_len + s.curr_body_len) % 2 ^ 32) s.buffer.bytes ≡ rest
    rest_at = rw end_at (
        drop-add s.buffer.read_pos (length text) s.buffer.bytes ∙ rw e (drop-append_left text rest))

-- The id that the slicer reports: an empty one leaves the field as the last packet set it.
abbrev pub carry : List ℕ → List ℕ → List ℕ
carry old [] = old
carry old (x ∷ xs) = x ∷ xs

counted :
    {s : Slicer} (u : Slicer)
    → IsCounted s
    → u.buffer ≡ s.buffer
    → u.curr_header_len ≡ s.curr_header_len
    → IsCounted u
counted {s} u c e h = record {
  placed = subst IsPlaced (sym e) c.placed;
  synced = h ∙ c.synced ∙ ap (λ b. b.read_pos) (sym e);
  octets = subst (λ b. All IsOctet b.bytes) (sym e) c.octets;
}

module _ (text rest : List ℕ) (fits : length text ≤ max_packet_body_size) where
  blen-Delivers :
      (s : Slicer)
      → IsCounted s
      → s.buffer.read_pos ≤ 516
      → unread s.buffer ≡ word_bytes 4 true (length text) ++ (text ++ rest)
      → Delivers s.parsed_items
          (record {
            code = s.curr_code;
            from_id = s.curr_from_id;
            to_id = s.curr_to_id;
            body = text;
          })
          rest
          (parse_blen s)
  unfolding parse_blen
  blen-Delivers s c small e =
      rw (n.runs, value, le→ltb max_packet_body_size (length text) fits)
        (body-Delivers (record (took 4 s) { curr_body_len = length text; state = State.body }) text
          rest (counted _ n.counts refl refl) (omega arith) refl fits n.leaves)
    where
      n :
          Next s
            (need 4 Buffer.read_int32 s with_blen)
            with_blen
            (word_value true (word_bytes 4 true (length text)))
            4
            (text ++ rest)
      n =
          need-Next s with_blen (word_bytes 4 true (length text)) (text ++ rest) Takes-int32 c
            (omega arith) (length-word_bytes 4 true (length text)) e

      value : word_value true (word_bytes 4 true (length text)) ≡ length text
      value = word_value-word_bytes 4 true (length text) (omega arith)

  -- What follows the receiver's id.
  abbrev tail_of : List ℕ
  tail_of = word_bytes 4 true (length text) ++ (text ++ rest)

  byte_value :
      (id : List ℕ) → length id ≤ 0xff → word_value true (word_bytes 1 true (length id)) ≡ length id
  byte_value id h = word_value-word_bytes 1 true (length id) (omega arith)

  to_text-Delivers :
      (s : Slicer) (id : List ℕ)
      → IsCounted s
      → s.buffer.read_pos ≤ 261
      → s.curr_to_id_len ≡ length id
      → length id ≤ 0xff
      → unread s.buffer ≡ id ++ tail_of
      → Delivers s.parsed_items
          (record {
            code = s.curr_code;
            from_id = s.curr_from_id;
            to_id = carry s.curr_to_id id;
            body = text;
          })
          rest
          (read_id_text to to_blen s)
  unfolding read_id_text
  to_text-Delivers s [] c small len h e = rw (le→ltb 0 s.curr_to_id_len (omega (arith, len))) (
      blen-Delivers (record s { state = State.header_blen }) (counted _ c refl refl) (omega arith)
        e)
  to_text-Delivers s (x ∷ xs) c small len h e =
      rw (lt→ltb 0 s.curr_to_id_len (omega (arith, len)), n.runs)
        (blen-Delivers
          (record (set_id to (x ∷ xs) (took s.curr_to_id_len s)) { state = State.header_blen })
          (counted _ n.counts refl refl) (omega (arith, len)) n.leaves)
    where
      n :
          Next s
            (need s.curr_to_id_len (Buffer.read s.curr_to_id_len) s (with_id to to_blen))
            (with_id to to_blen)
            (x ∷ xs)
            s.curr_to_id_len
            tail_of
      n =
          need-Next s (with_id to to_blen) (x ∷ xs) tail_of (Takes-read s.curr_to_id_len) c
            (omega (arith, len)) (sym len) e

  to_id-Delivers :
      (s : Slicer) (id : List ℕ)
      → IsCounted s
      → s.buffer.read_pos ≤ 260
      → s.curr_to_id_len ≡ 0
      → length id ≤ 0xff
      → unread s.buffer ≡ str8 id ++ tail_of
      → Delivers s.parsed_items
          (record {
            code = s.curr_code;
            from_id = s.curr_from_id;
            to_id = carry s.curr_to_id id;
            body = text;
          })
          rest
          (parse_to_id s)
  unfolding parse_to_id read_id
  to_id-Delivers s id c small len h e =
      rw (le→ltb 0 s.curr_to_id_len (omega (arith, len)), n.runs)
        (to_text-Delivers
          (set_id_len to (word_value true (word_bytes 1 true (length id))) (took 1 s)) id
          (counted _ n.counts refl refl) (omega arith) (byte_value id h) h n.leaves)
    where
      n :
          Next s
            (need 1 Buffer.read_int8 s (with_id_len to to_blen))
            (with_id_len to to_blen)
            (word_value true (word_bytes 1 true (length id)))
            1
            (id ++ tail_of)
      n =
          need-Next s (with_id_len to to_blen) (word_bytes 1 true (length id)) (id ++ tail_of)
            Takes-int8 c (omega arith) (length-word_bytes 1 true (length id))
            (e ∙ append_assoc (word_bytes 1 true (length id)) id tail_of)

  -- What follows the sender's id.
  module _ (name : List ℕ) (short : length name ≤ 0xff) where
    abbrev to_tail : List ℕ
    to_tail = str8 name ++ tail_of

    -- The packet that is filled where the header so far is that of `s`, but for the sender.
    abbrev filled : Slicer → List ℕ → Packet
    filled s id = record {
      code = s.curr_code;
      from_id = carry s.curr_from_id id;
      to_id = carry s.curr_to_id name;
      body = text;
    }

    from_text-Delivers :
        (s : Slicer) (id : List ℕ)
        → IsCounted s
        → s.buffer.read_pos ≤ 5
        → s.curr_from_id_len ≡ length id
        → length id ≤ 0xff
        → s.curr_to_id_len ≡ 0
        → unread s.buffer ≡ id ++ to_tail
        → Delivers s.parsed_items (filled s id) rest (read_id_text from to_to_id s)
    unfolding read_id_text
    from_text-Delivers s [] c small len h unset e =
        rw (le→ltb 0 s.curr_from_id_len (omega (arith, len))) (
          to_id-Delivers (record s { state = State.header_to_id }) name (counted _ c refl refl)
            (omega arith) unset short e)
    from_text-Delivers s (x ∷ xs) c small len h unset e =
        rw (lt→ltb 0 s.curr_from_id_len (omega (arith, len)), n.runs)
          (to_id-Delivers
            (record (set_id from (x ∷ xs) (took s.curr_from_id_len s)) {
              state = State.header_to_id;
            })
            name (counted _ n.counts refl refl) (omega (arith, len)) unset short n.leaves)
      where
        n :
            Next s
              (need s.curr_from_id_len (Buffer.read s.curr_from_id_len) s (with_id from to_to_id))
              (with_id from to_to_id)
              (x ∷ xs)
              s.curr_from_id_len
              to_tail
        n =
            need-Next s (with_id from to_to_id) (x ∷ xs) to_tail (Takes-read s.curr_from_id_len) c
              (omega (arith, len)) (sym len) e

    from_id-Delivers :
        (s : Slicer) (id : List ℕ)
        → IsCounted s
        → s.buffer.read_pos ≤ 4
        → s.curr_from_id_len ≡ 0
        → length id ≤ 0xff
        → s.curr_to_id_len ≡ 0
        → unread s.buffer ≡ str8 id ++ to_tail
        → Delivers s.parsed_items (filled s id) rest (parse_from_id s)
    unfolding parse_from_id read_id
    from_id-Delivers s id c small len h unset e =
        rw (le→ltb 0 s.curr_from_id_len (omega (arith, len)), n.runs)
          (from_text-Delivers
            (set_id_len from (word_value true (word_bytes 1 true (length id))) (took 1 s)) id
            (counted _ n.counts refl refl) (omega arith) (byte_value id h) h unset n.leaves)
      where
        n :
            Next s
              (need 1 Buffer.read_int8 s (with_id_len from to_to_id))
              (with_id_len from to_to_id)
              (word_value true (word_bytes 1 true (length id)))
              1
              (id ++ to_tail)
        n =
            need-Next s (with_id_len from to_to_id) (word_bytes 1 true (length id)) (id ++ to_tail)
              Takes-int8 c (omega arith) (length-word_bytes 1 true (length id))
              (e ∙ append_assoc (word_bytes 1 true (length id)) id to_tail)

    -- What follows the code.
    module _ (id : List ℕ) (h : length id ≤ 0xff) (code : ℕ) (known : code < code_max) where
      abbrev from_tail : List ℕ
      from_tail = str8 id ++ to_tail

      code-Delivers :
          (s : Slicer)
          → IsCounted s
          → s.buffer.read_pos ≡ 2
          → s.curr_from_id_len ≡ 0
          → s.curr_to_id_len ≡ 0
          → unread s.buffer ≡ word_bytes 2 true code ++ from_tail
          → Delivers s.parsed_items (record (filled s id) { code = code }) rest (parse_code s)
      unfolding parse_code
      code-Delivers s c at f t e =
          rw (n.runs, word_value-word_bytes 2 true code (omega arith), lt→leb code_max code known)
            (from_id-Delivers (record (took 2 s) { curr_code = code; state = State.header_from_id })
              id (counted _ n.counts refl refl) (omega (arith, at)) f h t n.leaves)
        where
          n :
              Next s
                (need 2 Buffer.read_int16 s with_code)
                with_code
                (word_value true (word_bytes 2 true code))
                2
                from_tail
          n =
              need-Next s with_code (word_bytes 2 true code) from_tail Takes-int16 c
                (omega (arith, at)) (length-word_bytes 2 true code) e

      magic-Delivers :
          (s : Slicer)
          → IsCounted s
          → s.buffer.read_pos ≡ 0
          → unread s.buffer
            ≡ word_bytes 2 true net_magic_code ++ (word_bytes 2 true code ++ from_tail)
          → Delivers s.parsed_items (record (filled s id) { code = code }) rest (parse_magic s)
      unfolding parse_magic
      magic-Delivers s c at e =
          rw (n.runs, word_value-word_bytes 2 true net_magic_code (omega arith))
            (code-Delivers (record (took 2 (start_header s)) { state = State.header_code })
              (counted _ n.counts refl refl) (omega (arith, at)) refl refl n.leaves)
        where
          n :
              Next
                (start_header s)
                (need 2 Buffer.read_int16 (start_header s) with_magic)
                with_magic
                (word_value true (word_bytes 2 true net_magic_code))
                2
                (word_bytes 2 true code ++ from_tail)
          n =
              need-Next (start_header s) with_magic (word_bytes 2 true net_magic_code)
                (word_bytes 2 true code ++ from_tail) Takes-int16
                (record { placed = c.placed; synced = sym at; octets = c.octets })
                (omega (arith, at)) (length-word_bytes 2 true net_magic_code) e

-- The packet that the slicer reports for a frame: an empty id is that of the packet before.
abbrev pub carried : Slicer → Packet → Packet
carried s p = record p {
  from_id = carry s.curr_from_id p.from_id;
  to_id = carry s.curr_to_id p.to_id;
}

-- A packet that the format can hold and the slicer accepts.
pub record IsSendable (p : Packet) : Type 0 where
  pub known : p.code < code_max
  pub from_short : length p.from_id ≤ 0xff
  pub to_short : length p.to_id ≤ 0xff
  pub body_fits : length p.body ≤ max_packet_body_size

abbrev pub framed : Packet → List ℕ
framed p = frame p.code p.from_id p.to_id p.body

regroup :
    (p : Packet) (rest : List ℕ)
    → framed p ++ rest
      ≡ word_bytes 2 true net_magic_code
        ++ (word_bytes 2 true p.code
            ++ (str8 p.from_id
                ++ (str8 p.to_id ++ (word_bytes 4 true (length p.body) ++ (p.body ++ rest)))))
regroup p rest = simp append_assoc

-- A slicer between two packets, with a sendable packet at the front of its buffer, cuts it off.
pub do_parse-framed :
    (s : Slicer) (p : Packet) (rest : List ℕ)
    → IsSound s
    → s.state ≡ State.header_magic
    → IsSendable p
    → s.buffer.bytes ≡ framed p ++ rest
    → Delivers s.parsed_items (carried s p) rest (do_parse s)
unfolding do_parse parse_from
do_parse-framed s p rest v e ok h =
    subst (λ t. Delivers s.parsed_items (carried s p) rest (parse_from t s)) (sym e)
      (magic-Delivers p.body rest ok.body_fits p.to_id ok.to_short p.from_id ok.from_short p.code
        ok.known s v.counted at
        (subst (λ n. drop n s.buffer.bytes ≡ framed p ++ rest) (sym at) h ∙ regroup p rest))
  where
    at : s.buffer.read_pos ≡ 0
    at = subst (λ t. Staged t s) e v.staged
