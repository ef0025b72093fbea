-- ===== src/Wire/Write.antt =====
-- PacketBuffer.h, CPacketBufferUtil: the writers at the end of a buffer.
use shared_painter.Common.{
  ℕ, ◌≤◌, ◌<◌, ◌≡◌, refl, ◌∙◌, arith, Bool, true, List, [], ◌++◌, append-nil, ap, sym, ◌∙◌,
  append_assoc, length, length-append, take-length, drop-length, le→leb, le→ltb, lt→ltb, Outcome,
  ok, throw, packet_error, and_then,
}
use shared_painter.Wire.{
  Writer, insert, write_binary, write_int8, write_int16, write_int32, write_double, ◌⨟◌,
  write_string, write_string8, write_string16, write_string32, emit,
}
use shared_painter.Wire.Bytes.{word_bytes}

-- At the end of any buffer the writer appends `bs` and returns its length.
pub record Writes (w : Writer) (bs : List ℕ) : Type 0 where
  pub appends : (buf : List ℕ) → w buf (length buf) ≡ ok (buf ++ bs, length bs)

pub Writes-binary : (bs : List ℕ) → Writes (write_binary bs) bs
unfolding write_binary insert
Writes-binary bs = record {
  appends = λ buf.
      rw (le→leb (length buf) (length buf) (omega arith), take-length, drop-length, append-nil);
}

pub Writes-int8 : (v : ℕ) → Writes (write_int8 v) (word_bytes 1 true v)
unfolding write_int8
Writes-int8 v = Writes-binary (word_bytes 1 true v)

pub Writes-int16 : (v : ℕ) (le : Bool) → Writes (write_int16 v le) (word_bytes 2 le v)
unfolding write_int16
Writes-int16 v le = Writes-binary (word_bytes 2 le v)

pub Writes-int32 : (v : ℕ) (le : Bool) → Writes (write_int32 v le) (word_bytes 4 le v)
unfolding write_int32
Writes-int32 v le = Writes-binary (word_bytes 4 le v)

pub Writes-double : (v : ℕ) → Writes (write_double v) (word_bytes 8 true v)
unfolding write_double
Writes-double v = Writes-binary (word_bytes 8 true v)

-- Two writers in a row, where the second starts at the position that the first returns.
pub Writes-seq :
    {f g : Writer} {xs ys : List ℕ} → Writes f xs → Writes g ys → Writes (f ⨟ g) (xs ++ ys)
unfolding ◌⨟◌
Writes-seq {f} {g} {xs} {ys} hf hg = record { appends = both }
  where
    both : (buf : List ℕ) → (f ⨟ g) buf (length buf) ≡ ok (buf ++ (xs ++ ys), length (xs ++ ys))
    both buf = rw (
      hf.appends buf,
      ← length-append buf xs,
      hg.appends (buf ++ xs),
      append_assoc,
      length-append xs ys,
    )

write_string-long :
    (k max : ℕ) (s : List ℕ) (le : Bool) (buf : List ℕ) (pos : ℕ)
    → max < length s
    → write_string k max s le buf pos ≡ throw packet_error
unfolding write_string
write_string-long k max s le buf pos h = rw (lt→ltb max (length s) h)

write_string-short :
    (k max : ℕ) (s : List ℕ) (le : Bool) (buf : List ℕ) (pos : ℕ)
    → length s ≤ max
    → write_string k max s le buf pos
      ≡ (write_binary (word_bytes k le (length s)) ⨟ write_binary s) buf pos
unfolding write_string
write_string-short k max s le buf pos h = rw (le→ltb max (length s) h)

Writes-string :
    (k max : ℕ) (s : List ℕ) (le : Bool)
    → length s ≤ max
    → Writes (write_string k max s le) (word_bytes k le (length s) ++ s)
Writes-string k max s le h = record { appends = λ buf. fits buf ∙ both.appends buf }
  where
    both :
        Writes
          (write_binary (word_bytes k le (length s)) ⨟ write_binary s)
          (word_bytes k le (length s) ++ s)
    both = Writes-seq (Writes-binary (word_bytes k le (length s))) (Writes-binary s)

    fits :
        (buf : List ℕ)
        → write_string k max s le buf (length buf)
          ≡ (write_binary (word_bytes k le (length s)) ⨟ write_binary s) buf (length buf)
    fits buf = write_string-short k max s le buf (length buf) h

-- A counted string: its length in one byte, then its bytes.
abbrev pub str8 : List ℕ → List ℕ
str8 s = word_bytes 1 true (length s) ++ s

abbrev pub str16 : Bool → List ℕ → List ℕ
str16 le s = word_bytes 2 le (length s) ++ s

abbrev pub str32 : Bool → List ℕ → List ℕ
str32 le s = word_bytes 4 le (length s) ++ s

pub Writes-string8 : (s : List ℕ) → length s ≤ 0xff → Writes (write_string8 s) (str8 s)
unfolding write_string8
Writes-string8 s h = Writes-string 1 0xff s true h

pub Writes-string16 :
    (s : List ℕ) (le : Bool) → length s ≤ 0xffff → Writes (write_string16 s le) (str16 le s)
unfolding write_string16
Writes-string16 s le h = Writes-string 2 0xffff s le h

pub Writes-string32 :
    (s : List ℕ) (le : Bool) → length s ≤ 0xffff_ffff → Writes (write_string32 s le) (str32 le s)
unfolding write_string32
Writes-string32 s le h = Writes-string 4 0xffff_ffff s le h

-- A string that does not fit its length byte is refused, whatever the buffer.
pub write_string8-long :
    (s buf : List ℕ) (pos : ℕ) → 0xff < length s → write_string8 s buf pos ≡ throw packet_error
unfolding write_string8
write_string8-long s buf pos h = write_string-long 1 0xff s true buf pos h

-- At the end of any buffer the writer throws.
pub record Refuses (w : Writer) : Type 0 where
  pub refuses : (buf : List ℕ) → w buf (length buf) ≡ throw packet_error

pub Refuses-string8 : (s : List ℕ) → 0xff < length s → Refuses (write_string8 s)
Refuses-string8 s h = record { refuses = λ buf. write_string8-long s buf (length buf) h }

-- The second writer of a row is not called behind a first one that throws.
pub Refuses-first : {f : Writer} (g : Writer) → Refuses f → Refuses (f ⨟ g)
unfolding ◌⨟◌
Refuses-first g hf = record { refuses = λ buf. rw (hf.refuses buf) refl }

pub Refuses-second : {f g : Writer} {xs : List ℕ} → Writes f xs → Refuses g → Refuses (f ⨟ g)
unfolding ◌⨟◌
Refuses-second {f} {g} {xs} hf hg = record {
  refuses = λ buf. rw (hf.appends buf, ← length-append buf xs, hg.refuses (buf ++ xs)) refl;
}

-- Nothing follows an exception in the body of a packet.
pub emit-Refuses :
    {w : Writer} {A : Type 0} (k : List ℕ → Outcome A)
    → Refuses w
    → and_then (emit w) k ≡ throw packet_error
emit-Refuses k h = rw (h.refuses []) refl

pub emit_lem : {w : Writer} {bs : List ℕ} → Writes w bs → emit w ≡ ok bs
emit_lem h = rw (h.appends [])

-- A writer that writes nothing.
pub Writes-none : {w : Writer} → ((buf : List ℕ) → w buf (length buf) ≡ ok (buf, 0)) → Writes w []
Writes-none same = record { appends = λ buf. same buf ∙ ap (λ b. ok (b, 0)) (sym (append-nil buf)) }
