-- ===== src/Protocol/ReadBack.antt =====
-- Reader against a parser on the bytes that are left.
use efsw.Base.{
  ℕ, ◌+◌, ◌*◌, ◌^◌, ◌≤◌, ◌≡◌, refl, sym, true, false, not, [], ◌∷◌, Text, length, get_or, take,
  drop, ltb, if◌then◌else◌, arith, length-drop, drop-drop, get_or-drop, Option, none, some, ap₂,
  subst, to_i32,
}
use efsw.Protocol.Reader.{Reader, u32, str, need}
use efsw.Protocol.Fields.{
  Kind, a_byte, a_half, a_word, an_int, a_text, Field, byte, half, word, int, text, zero_field,
  read_field,
}

unfoldable pub rest : Reader → Text
rest r = drop r.pos r.bytes

abbrev pub IsValid : Reader → Type 0
IsValid r = r.pos ≤ length r.bytes

abbrev parse_word : Text → Option (ℕ × Text)
parse_word (a ∷ b ∷ c ∷ d ∷ s) = some (a * 2 ^ 24 + b * 2 ^ 16 + c * 2 ^ 8 + d, s)
parse_word _ = none

abbrev parse_text : Option (ℕ × Text) → Option (Text × Text)
parse_text none = none
parse_text (some (n, s)) = if ltb (length s) n then none else some (take n s, drop n s)

-- The first field of the bytes and what follows it, if they hold one.
unfoldable pub parse_field : Kind → Text → Option (Field × Text)
parse_field a_byte [] = none
parse_field a_byte (a ∷ s) = some (byte a, s)
parse_field a_half (a ∷ b ∷ s) = some (half (a * 2 ^ 8 + b), s)
parse_field a_half _ = none
parse_field a_word s = elim (parse_word s) [ none ↦ none | some (n, s') ↦ some (word n, s') ]
parse_field an_int s = elim (parse_word s) [
  | none ↦ none
  | some (n, s') ↦ some (int (to_i32 n), s')
]
parse_field a_text s = elim (parse_text (parse_word s)) [
  | none ↦ none
  | some (t, s') ↦ some (text t, s')
]

-- What a read owes for each result of the parser.
abbrev pub Agrees : {A : Type 0} → A → Option (A × Text) → A × Reader → Type 0
Agrees z none (v, r) = (v ≡ z) × (r.ok ≡ false) × IsValid r
Agrees z (some (w, s)) (v, r) = (v ≡ w) × (r.ok ≡ true) × (rest r ≡ s) × IsValid r

-- A read of `count` bytes, with the bytes that are left in place of the position.
need-rest :
    (r : Reader) (count : ℕ)
    → r.ok ≡ true
    → need r count
      ≡ (if ltb (length (rest r)) count then (false, record r { ok = false }) else (true, r))
unfolding need rest
need-rest r count h = ground (arith, length-drop r.pos r.bytes)

rest-advance : (r : Reader) (n : ℕ) → rest (record r { pos = r.pos + n }) ≡ drop n (rest r)
unfolding rest
rest-advance r n = sym (drop-drop r.pos n (r.pos + n) r.bytes refl)

byte-rest : (r : Reader) (i : ℕ) → get_or r.bytes (r.pos + i) 0 ≡ get_or (rest r) i 0
unfolding rest
byte-rest r i = sym (get_or-drop r.pos i (r.pos + i) r.bytes 0 refl)

advance-IsValid :
    (r : Reader) (n : ℕ) → IsValid r → n ≤ length (rest r) → r.pos + n ≤ length r.bytes
unfolding rest
advance-IsValid r n v h = omega (arith, length-drop r.pos r.bytes)

-- The second half of `str`: the bytes of a text whose length has been read.
body_of : Reader → ℕ → Text × Reader
body_of r n =
    let (enough, r₂) = need r n in
    if enough then (take n (drop r₂.pos r₂.bytes), record r₂ { pos = r₂.pos + n }) else ([], r₂)

module _ (r : Reader) (v : IsValid r) (h : r.ok ≡ true) where
  u32-Agrees : (s : Text) → rest r ≡ s → Agrees 0 (parse_word s) (u32 r)
  unfolding u32
  u32-Agrees (a ∷ b ∷ c ∷ d ∷ s) e = rw (need-rest r 4 h) (
      ground (
        arith,
        byte-rest r 0,
        byte-rest r 1,
        byte-rest r 2,
        byte-rest r 3,
        rest-advance r 4,
        advance-IsValid r 4 v,
      ))
  u32-Agrees _ e = rw (need-rest r 4 h) (ground (arith, v))

  u8-Agrees : (s : Text) → rest r ≡ s → Agrees (byte 0) (parse_field a_byte s) (read_field a_byte r)
  unfolding read_field parse_field
  u8-Agrees (a ∷ s) e =
      rw (need-rest r 1 h) (ground (arith, byte-rest r 0, rest-advance r 1, advance-IsValid r 1 v))
  u8-Agrees _ e = rw (need-rest r 1 h) (ground (arith, v))

  u16-Agrees :
      (s : Text) → rest r ≡ s → Agrees (half 0) (parse_field a_half s) (read_field a_half r)
  unfolding read_field parse_field
  u16-Agrees (a ∷ b ∷ s) e =
      rw (need-rest r 2 h)
        (ground (arith, byte-rest r 0, byte-rest r 1, rest-advance r 2, advance-IsValid r 2 v))
  u16-Agrees _ e = rw (need-rest r 2 h) (ground (arith, v))

  body_of-Agrees : (n : ℕ) → Agrees [] (parse_text (some (n, rest r))) (body_of r n)
  unfolding body_of rest
  body_of-Agrees n =
      rw (need-rest r n h) (ground (arith, v, rest-advance r n, advance-IsValid r n v))

str_after : ℕ × Reader → Text × Reader
unfolding body_of
str_after (n, r) = if not r.ok then ([], r) else body_of r n

str_after-body_of : (m : ℕ) (r : Reader) → r.ok ≡ true → str_after (m, r) ≡ body_of r m
unfolding str_after
str_after-body_of m r h = ground arith

str_after_failed : (x : ℕ × Reader) → Agrees 0 none x → Agrees {A = Text} [] none (str_after x)
unfolding str_after
str_after_failed x a = ground (arith, a)

str_after-Agrees :
    (c : Option (ℕ × Text)) (x : ℕ × Reader) → Agrees 0 c x → Agrees [] (parse_text c) (str_after x)
str_after-Agrees none x a = str_after_failed x a
str_after-Agrees (some (n, s)) (m, r) a =
    let e : parse_text (some (m, rest r)) ≡ parse_text (some (n, s)) =
      ap₂ (λ k t. parse_text (some (k, t))) a.0 a.2 in
    rw (str_after-body_of m r a.1)
      (subst (λ c. Agrees [] c (body_of r m)) e (body_of-Agrees r a.3 a.1 m))

str-Agrees :
    (r : Reader) → IsValid r → r.ok ≡ true → Agrees [] (parse_text (parse_word (rest r))) (str r)
unfolding str str_after
str-Agrees r v h = str_after-Agrees (parse_word (rest r)) (u32 r) (u32-Agrees r v h (rest r) refl)

-- A reader that has not failed and whose position lies within its bytes reads the next field of
-- the bytes that are left and moves past it, or fails and yields zero.
pub read_field-Agrees :
    (k : Kind) (r : Reader)
    → IsValid r
    → r.ok ≡ true
    → Agrees (zero_field k) (parse_field k (rest r)) (read_field k r)
unfolding read_field parse_field
read_field-Agrees a_byte r v h = u8-Agrees r v h (rest r) refl
read_field-Agrees a_half r v h = u16-Agrees r v h (rest r) refl
read_field-Agrees a_word r v h = ground (arith, u32-Agrees r v h (rest r) refl)
read_field-Agrees an_int r v h = ground (arith, u32-Agrees r v h (rest r) refl)
read_field-Agrees a_text r v h = ground (arith, str-Agrees r v h)

-- After an overrun every read yields zero and moves nothing.
pub read_field_failed : (k : Kind) (r : Reader) → r.ok ≡ false → read_field k r ≡ (zero_field k, r)
unfolding read_field need
read_field_failed a_byte r h = ground arith
read_field_failed a_half r h = ground arith
read_field_failed a_word r h = ground arith
read_field_failed an_int r h = ground arith
read_field_failed a_text r h = ground arith
