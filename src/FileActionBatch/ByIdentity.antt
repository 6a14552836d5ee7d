-- ===== src/FileActionBatch/ByIdentity.antt =====
-- The map of candidates in FileActionBatch::dispatch as a function from identities to entries.
use efsw.Base.{
  ℕ, ◌==◌, ◌≡◌, inl, inr, Bool, true, ◌&&◌, List, [], ◌∷◌, if◌then◌else◌, Bool-cases, All, All-map,
  arith,
}
use efsw.FileActionBatch.{Identity, Entries, push_back, put_candidate, identity_lt}

abbrev pub same_identity : Identity → Identity → Bool
same_identity a b = a.device == b.device && a.inode == b.inode

abbrev pub no_entries : Entries
no_entries = record { created = []; deleted = [] }

-- The entries under an identity.
unfoldable pub entries_of : List (Identity × Entries) → Identity → Entries
entries_of [] k = no_entries
entries_of ((l, e) ∷ rest) k =
    if identity_lt l k then entries_of rest k else if identity_lt k l then no_entries else e

pub entries_of-put_candidate :
    (k : Identity) (created : Bool) (i : ℕ) (cs : List (Identity × Entries)) (m : Identity)
    → entries_of (put_candidate k created i cs) m
      ≡ (if same_identity k m then push_back created i (entries_of cs m) else entries_of cs m)
unfolding put_candidate entries_of
entries_of-put_candidate k created i [] m = ground arith
entries_of-put_candidate k created i ((l, e) ∷ rest) m =
    ground (arith, entries_of-put_candidate k created i rest m)

-- The keys ascend.
unfoldable pub Ascending : List (Identity × Entries) → Type 0
Ascending [] = Unit
Ascending ((l, e) ∷ rest) = All (λ c. identity_lt l c.0 ≡ true) rest × Ascending rest

put_candidate-above :
    (l k : Identity) (created : Bool) (i : ℕ) (cs : List (Identity × Entries))
    → identity_lt l k ≡ true
    → All (λ c. identity_lt l c.0 ≡ true) cs
    → All (λ c. identity_lt l c.0 ≡ true) (put_candidate k created i cs)
unfolding put_candidate
put_candidate-above l k created i [] h a = (h, tt)
put_candidate-above l k created i ((m, e) ∷ rest) h (b, a) = elim (Bool-cases (identity_lt m k)) [
  | inl x ↦ rw x (b, put_candidate-above l k created i rest h a)
  | inr x ↦ elim (Bool-cases (identity_lt k m)) [
    | inl y ↦ rw (x, y) (h, (b, a))
    | inr y ↦ rw (x, y) (b, a)
  ]
]

lt_trans :
    (k l m : Identity) → identity_lt k l ≡ true → identity_lt l m ≡ true → identity_lt k m ≡ true
lt_trans k l m h g = ground arith

pub put_candidate-Ascending :
    (k : Identity) (created : Bool) (i : ℕ) (cs : List (Identity × Entries))
    → Ascending cs
    → Ascending (put_candidate k created i cs)
unfolding put_candidate Ascending
put_candidate-Ascending k created i [] a = (tt, tt)
put_candidate-Ascending k created i ((l, e) ∷ rest) (b, a) = elim (Bool-cases (identity_lt l k)) [
  | inl x ↦
      rw x (put_candidate-above l k created i rest x b, put_candidate-Ascending k created i rest a)
  | inr x ↦ elim (Bool-cases (identity_lt k l)) [
    | inl y ↦ rw (x, y) ((y, All-map rest (λ c g. lt_trans k l c.0 y g) b), (b, a))
    | inr y ↦ rw (x, y) (b, a)
  ]
]

-- Under every key stand its entries.
pub entries_of-Ascending :
    (cs : List (Identity × Entries)) → Ascending cs → All (λ c. entries_of cs c.0 ≡ c.1) cs
unfolding entries_of Ascending
entries_of-Ascending [] a = tt
entries_of-Ascending ((l, e) ∷ rest) (b, a) =
    (ground arith, below rest b (entries_of-Ascending rest a))
  where
    below :
        (ds : List (Identity × Entries))
        → All (λ c. identity_lt l c.0 ≡ true) ds
        → All (λ c. entries_of rest c.0 ≡ c.1) ds
        → All (λ c. entries_of ((l, e) ∷ rest) c.0 ≡ c.1) ds
    below [] b h = tt
    below ((m, f) ∷ ds) (g, b) (h, hs) = (rw g h, below ds b hs)
