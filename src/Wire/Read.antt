-- ===== src/Wire/Read.antt =====
-- PacketBuffer.h, CPacketBufferUtil: what the readers find at a position.
use shared_painter.Common.{
  ℕ, ◌+◌, ◌-◌, ◌^◌, ◌≤◌, ◌<◌, ◌≡◌, refl, ap, ◌∙◌, arith, Bool, true, List, [], ◌++◌, append_assoc,
  append-nil, length, length-append, take, drop, take-append_left, drop-append_left, le→ltb, ltb,
  ==_self, length-drop, Bool-cases, inl, inr, take_of_length_le, ltb→lt, sym, subst, and_then, ok,
}
use shared_painter.Wire.{
  Reader, read, read_exactly, read_word, read_int8, read_int16, read_int32, read_double, ◌>>=◌,
  done, read_string8, read_string16, read_string32,
}
use shared_painter.Wire.Bytes.{word_bytes, length-word_bytes, word_value-word_bytes}
use shared_painter.Wire.Write.{str8, str16, str32}

-- Where `bs` stands in a buffer, the reader gives `a` and counts the bytes of `bs`.
pub record Reads {A : Type 0} (r : Reader A) (a : A) (bs : List ℕ) : Type 0 where
  pub finds : (pre post : List ℕ) → r (pre ++ (bs ++ post)) (length pre) ≡ ok (a, length bs)

-- A read inside the buffer gives the bytes from the position on, at most `size` of them.
pub read-inside :
    (buf : List ℕ) (pos size : ℕ)
    → pos ≤ length buf
    → read buf pos size ≡ ok (take size (drop pos buf))
unfolding read
read-inside buf pos size h = elim (Bool-cases (ltb (length buf - pos) size)) [
  | inl short ↦
      rw (le→ltb (length buf) pos h, short)
        (ap ok (
          take_of_length_le (length buf - pos) (drop pos buf) (omega (arith, length-drop pos buf))
          ∙ sym (
              take_of_length_le size (drop pos buf)
                (omega (arith, length-drop pos buf, ltb→lt _ _ short)))))
  | inr full ↦ rw (le→ltb (length buf) pos h, full)
]

read-at : (pre bs post : List ℕ) → read (pre ++ (bs ++ post)) (length pre) (length bs) ≡ ok bs
read-at pre bs post =
    read-inside (pre ++ (bs ++ post)) (length pre) (length bs)
      (omega (arith, length-append pre (bs ++ post)))
    ∙ rw (drop-append_left pre (bs ++ post), take-append_left bs post)

Reads-exactly : (bs : List ℕ) → Reads (read_exactly (length bs)) bs bs
unfolding read_exactly
Reads-exactly bs = record { finds = λ pre post. rw (read-at pre bs post, ==_self (length bs)) }

Reads-word :
    (k : ℕ) (le : Bool) (v : ℕ) → v < 256 ^ k → Reads (read_word k le) v (word_bytes k le v)
unfolding read_word
Reads-word k le v h = record {
  finds = λ pre post.
      rw (exact k le v pre post) (ap (λ w. ok (w, k)) (word_value-word_bytes k le v h))
      ∙ ap (λ n. ok (v, n)) (sym (length-word_bytes k le v));
}
  where
    exact :
        (k : ℕ) (le : Bool) (v : ℕ) (pre post : List ℕ)
        → read_exactly k (pre ++ (word_bytes k le v ++ post)) (length pre)
          ≡ ok (word_bytes k le v, k)
    exact k le v pre post =
        subst
          (λ n.
            read_exactly n (pre ++ (word_bytes k le v ++ post)) (length pre)
            ≡ ok (word_bytes k le v, n))
          (length-word_bytes k le v) ((Reads-exactly (word_bytes k le v)).finds pre post)

pub Reads-bind :
    {A B : Type 0} {r : Reader A} (k : A → Reader B) {a : A} {b : B} {xs ys : List ℕ}
    → Reads r a xs
    → Reads (k a) b ys
    → Reads (r >>= k) b (xs ++ ys)
unfolding ◌>>=◌
Reads-bind {B} k {a} {b} {xs} {ys} hr hk = record {
  finds = λ pre post. rw (append_assoc xs ys post, hr.finds pre (ys ++ post)) (next pre post);
}
  where
    next :
        (pre post : List ℕ)
        → and_then {B = B × ℕ}
            (k a (pre ++ (xs ++ (ys ++ post))) (length pre + length xs))
            (λ q. ok (q.0, length xs + q.1))
          ≡ ok (b, length (xs ++ ys))
    next pre post = rw (
      ← length-append pre xs,
      ← append_assoc pre xs (ys ++ post),
      hk.finds (pre ++ xs) post,
      length-append xs ys,
    )

pub Reads-done : {A : Type 0} (a : A) → Reads (done a) a []
unfolding done
Reads-done a = record { finds = λ pre post. refl }

pub Reads-int8 : (v : ℕ) → v < 0x100 → Reads read_int8 v (word_bytes 1 true v)
unfolding read_int8
Reads-int8 v h = Reads-word 1 true v h

pub Reads-int16 : (v : ℕ) (le : Bool) → v < 0x1_0000 → Reads (read_int16 le) v (word_bytes 2 le v)
unfolding read_int16
Reads-int16 v le h = Reads-word 2 le v h

pub Reads-int32 :
    (v : ℕ) (le : Bool) → v < 0x1_0000_0000 → Reads (read_int32 le) v (word_bytes 4 le v)
unfolding read_int32
Reads-int32 v le h = Reads-word 4 le v h

pub Reads-double : (v : ℕ) → v < 2 ^ 64 → Reads read_double v (word_bytes 8 true v)
unfolding read_double
Reads-double v h = Reads-word 8 true v h

pub Reads-string8 : (s : List ℕ) → length s ≤ 0xff → Reads read_string8 s (str8 s)
unfolding read_string8
Reads-string8 s h = Reads-bind read_exactly (Reads-int8 (length s) (omega arith)) (Reads-exactly s)

pub Reads-string16 :
    (s : List ℕ) (le : Bool) → length s ≤ 0xffff → Reads (read_string16 le) s (str16 le s)
unfolding read_string16
Reads-string16 s le h =
    Reads-bind read_exactly (Reads-int16 (length s) le (omega arith)) (Reads-exactly s)

pub Reads-string32 :
    (s : List ℕ) (le : Bool) → length s ≤ 0xffff_ffff → Reads (read_string32 le) s (str32 le s)
unfolding read_string32
Reads-string32 s le h =
    Reads-bind read_exactly (Reads-int32 (length s) le (omega arith)) (Reads-exactly s)

-- The end of a parse that gives `f` of what was read last.
pub Reads-map :
    {A B : Type 0} {r : Reader A} (f : A → B) {a : A} {xs : List ℕ}
    → Reads r a xs
    → Reads (do x ← r; done (f x)) (f a) xs
Reads-map {r} f {a} {xs} h =
    subst (Reads (r >>= (λ x. done (f x))) (f a)) (append-nil xs)
      (Reads-bind (λ x. done (f x)) h (Reads-done (f a)))
