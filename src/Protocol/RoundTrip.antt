-- ===== src/Protocol/RoundTrip.antt =====
-- Whole payloads through `Writer` and `Reader`.
use efsw.Base.{
  ℕ, ◌≤◌, ◌<◌, ◌≡◌, refl, sym, ap, ◌∙◌, subst, true, false, List, [], ◌∷◌, ◌++◌, append-nil,
  append_assoc, Text, length, take, drop, ==_iff, arith, length-append, length-drop,
  take-append-drop, Option, none, some, Option-cases, inl, inr, map, All,
}
use efsw.Protocol.Writer
use efsw.Protocol.Reader.{Reader, reader, at_end, need}
use efsw.Protocol.Fields.{
  Kind, a_byte, a_half, a_word, an_int, a_text, Field, kind, InRange, zero_field, write_all,
  read_field, read_all,
}
use efsw.Protocol.ReadBack.{
  rest, IsValid, parse_field, Agrees, read_field-Agrees, read_field_failed,
}
use efsw.Protocol.Payload.{
  field_bytes, payload, write_all-bytes, parse_field-field_bytes, parse_field-append,
}

parse_all : List Kind → Text → Option (List Field × Text)
parse_all [] s = some ([], s)
parse_all (k ∷ ks) s = elim (parse_field k s) [
  | none ↦ none
  | some (f, s') ↦ elim (parse_all ks s') [ none ↦ none | some (fs, s'') ↦ some (f ∷ fs, s'') ]
]

abbrev ReadsAll : Option (List Field × Text) → List Field × Reader → Type 0
ReadsAll none (v, r) = (r.ok ≡ false) × IsValid r
ReadsAll (some (w, s)) (v, r) = (v ≡ w) × (r.ok ≡ true) × (rest r ≡ s) × IsValid r

-- After an overrun every further read yields the zero value and leaves the reader alone.
read_all_failed :
    (ks : List Kind) (r : Reader) → r.ok ≡ false → read_all ks r ≡ (map zero_field ks, r)
unfolding read_all
read_all_failed [] r h = refl
read_all_failed (k ∷ ks) r h = rw (read_field_failed k r h, read_all_failed ks r h)

parse_all-none :
    (k : Kind) (ks : List Kind) (s : Text) → parse_field k s ≡ none → parse_all (k ∷ ks) s ≡ none
unfolding parse_all
parse_all-none k ks s e = ground arith

read_all-step :
    (k : Kind) (ks : List Kind) (s : Text) (c : Option (Field × Text)) (x : Field × Reader)
    → parse_field k s ≡ c
    → Agrees (zero_field k) c x
    → ((t : Text)
        → rest x.1 ≡ t
        → IsValid x.1
        → x.1.ok ≡ true
        → ReadsAll (parse_all ks t) (read_all ks x.1))
    → ReadsAll (parse_all (k ∷ ks) s) (x.0 ∷ (read_all ks x.1).0, (read_all ks x.1).1)
unfolding parse_all
read_all-step k ks s none x e a ih =
    rw (parse_all-none k ks s e, read_all_failed ks x.1 a.1) (a.1, a.2)
read_all-step k ks s (some (f, t)) x e a ih = ground (arith, a, e, ih t a.2 a.3 a.1)

read_all-parse :
    (ks : List Kind) (r : Reader)
    → IsValid r
    → r.ok ≡ true
    → ReadsAll (parse_all ks (rest r)) (read_all ks r)
unfolding read_all parse_all
read_all-parse [] r v h = (refl, h, refl, v)
read_all-parse (k ∷ ks) r v h =
    read_all-step k ks (rest r) (parse_field k (rest r)) (read_field k r) refl
      (read_field-Agrees k r v h)
      (λ t q w o.
        subst (λ t. ReadsAll (parse_all ks t) (read_all ks (read_field k r).1)) q
          (read_all-parse ks (read_field k r).1 w o))

parse_all-some :
    (k : Kind) (ks : List Kind) (s s' t : Text) (f : Field) (fs : List Field)
    → parse_field k s ≡ some (f, s')
    → parse_all ks s' ≡ some (fs, t)
    → parse_all (k ∷ ks) s ≡ some (f ∷ fs, t)
unfolding parse_all
parse_all-some k ks s s' t f fs e d = ground arith

parse_all-cons :
    (k : Kind) (ks : List Kind) (s : Text) {gs : List Field} {t : Text}
    → parse_all (k ∷ ks) s ≡ some (gs, t)
    → (f : Field) × (fs : List Field) × (s' : Text) × (parse_field k s ≡ some (f, s'))
      × (parse_all ks s' ≡ some (fs, t))
      × (gs ≡ f ∷ fs)
unfolding parse_all
parse_all-cons k ks s {gs} {t} e = elim (Option-cases (parse_field k s)) [
  | inl q ↦ cc (parse_all-none k ks s q)
  | inr ((f, s'), q) ↦ elim (Option-cases (parse_all ks s')) [
    | inl d ↦ absurd (ground (arith, q, d))
    | inr ((fs, t'), d) ↦ (f, fs, s', q, ground (arith, q, d), ground (arith, q, d))
  ]
]

parse_all-append :
    (ks : List Kind) (s u : Text) {fs : List Field} {t : Text}
    → parse_all ks s ≡ some (fs, t)
    → parse_all ks (s ++ u) ≡ some (fs, t ++ u)
unfolding parse_all
parse_all-append [] s u e = ground arith
parse_all-append (k ∷ ks) s u {fs} {t} e =
    let (f, gs, s', q, d, w) = parse_all-cons k ks s e in
    rw w (
      parse_all-some k ks (s ++ u) (s' ++ u) (t ++ u) f gs (parse_field-append k s u q)
        (parse_all-append ks s' u d))

parse_all-payload :
    (fs : List Field) (u : Text)
    → All InRange fs
    → parse_all (map kind fs) (payload fs ++ u) ≡ some (fs, u)
unfolding parse_all payload
parse_all-payload [] u v = refl
parse_all-payload (f ∷ fs) u v = rw (append_assoc (field_bytes f) (payload fs) u) (
    parse_all-some (kind f) (map kind fs) _ (payload fs ++ u) u f fs
      (parse_field-field_bytes f (payload fs ++ u) v.0) (parse_all-payload fs u v.1))

written-payload : (fs : List Field) → (write_all Writer.empty fs).bytes ≡ payload fs
unfolding Writer.empty
written-payload fs = write_all-bytes Writer.empty fs

rest-reader : (s : Text) → rest (reader s) ≡ s
unfolding rest reader
rest-reader s = refl

-- Reading a fresh reader is parsing its bytes.
read_all-reader : (ks : List Kind) (s : Text) → ReadsAll (parse_all ks s) (read_all ks (reader s))
unfolding reader rest
read_all-reader ks s = read_all-parse ks (reader s) (omega arith) refl

at_end_iff : (r : Reader) → IsValid r → rest r ≡ [] → at_end r ≡ true
unfolding at_end rest
at_end_iff r v e =
    (==_iff r.pos (length r.bytes)).1 (omega (arith, ap length e, length-drop r.pos r.bytes))

-- Fields in the range of their C++ types come back as they were written, with no overrun and
-- nothing left over.
pub read_all-write_all :
    (fs : List Field)
    → All InRange fs
    → let (gs, r) = read_all (map kind fs) (reader (write_all Writer.empty fs).bytes) in
      (gs ≡ fs) × (r.ok ≡ true) × (at_end r ≡ true)
read_all-write_all fs v = rw (written-payload fs) (
    finish _ (
      subst (λ c. ReadsAll c (read_all (map kind fs) (reader (payload fs)))) whole
        (read_all-reader (map kind fs) (payload fs))))
  where
    whole : parse_all (map kind fs) (payload fs) ≡ some (fs, [])
    whole = ap (parse_all (map kind fs)) (sym (append-nil (payload fs))) ∙ parse_all-payload fs [] v

    finish :
        (x : List Field × Reader)
        → ReadsAll (some (fs, [])) x
        → (x.0 ≡ fs) × (x.1.ok ≡ true) × (at_end x.1 ≡ true)
    finish x a = (a.0, a.1, at_end_iff x.1 a.3 a.2)

-- Every truncation of a payload that was written from fields in range is noticed: the reader ends
-- with `ok` false.
pub read_all_truncated :
    (fs : List Field) (n : ℕ)
    → All InRange fs
    → n < length (write_all Writer.empty fs).bytes
    → (read_all (map kind fs) (reader (take n (write_all Writer.empty fs).bytes))).1.ok ≡ false
read_all_truncated fs n v h = rw (written-payload fs) (
    go (parse_all (map kind fs) s) refl (read_all (map kind fs) (reader s))
      (read_all-reader (map kind fs) s))
  where
    s : Text
    s = take n (payload fs)

    u : Text
    u = drop n (payload fs)

    left : 0 < length u
    left = omega (arith, h, ap length (written-payload fs), length-drop n (payload fs))

    go :
        (c : Option (List Field × Text))
        → parse_all (map kind fs) s ≡ c
        → (x : List Field × Reader) → ReadsAll c x
        → x.1.ok ≡ false
    go none e x a = a.0
    go (some (gs, r)) e x a =
        let all : parse_all (map kind fs) (payload fs) ≡ some (gs, r ++ u) =
          ap (parse_all (map kind fs)) (sym (take-append-drop n (payload fs)))
          ∙ parse_all-append (map kind fs) s u e in
        let whole : parse_all (map kind fs) (payload fs) ≡ some (fs, []) =
          ap (parse_all (map kind fs)) (sym (append-nil (payload fs)))
          ∙ parse_all-payload fs [] v in
        let none_left : r ++ u ≡ [] = cc (all, whole) in
        absurd (omega (arith, left, ap length none_left, length-append r u))

read_field-bytes : (k : Kind) (r : Reader) → (read_field k r).1.bytes ≡ r.bytes
unfolding read_field need
read_field-bytes a_byte r = ground arith
read_field-bytes a_half r = ground arith
read_field-bytes a_word r = ground arith
read_field-bytes an_int r = ground arith
read_field-bytes a_text r = ground arith

read_all-bytes : (ks : List Kind) (r : Reader) → (read_all ks r).1.bytes ≡ r.bytes
unfolding read_all
read_all-bytes [] r = refl
read_all-bytes (k ∷ ks) r = read_all-bytes ks (read_field k r).1 ∙ read_field-bytes k r

-- Whatever kinds of fields are read from whatever bytes, the position never passes their end.
pub read_all_bounds : (ks : List Kind) (s : Text) → (read_all ks (reader s)).1.pos ≤ length s
unfolding reader
read_all_bounds ks s =
    subst (λ b. (read_all ks (reader s)).1.pos ≤ length b) (read_all-bytes ks (reader s))
      (go (parse_all ks s) (read_all ks (reader s)) (read_all-reader ks s))
  where
    go : (c : Option (List Field × Text)) (x : List Field × Reader) → ReadsAll c x → IsValid x.1
    go none x a = a.1
    go (some (fs, t)) x a = a.3
