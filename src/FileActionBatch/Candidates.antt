-- ===== src/FileActionBatch/Candidates.antt =====
-- The map of candidates in FileActionBatch::dispatch: which events its indices stand for.
use efsw.Base.{
  ℕ, zero, suc, ◌==◌, ◌≡◌, refl, sym, subst, inl, inr, Bool, true, false, not, ◌&&◌, List, [], ◌∷◌,
  ◌++◌, length, get_elem?, some, Bool-cases, All, All-append, arith, append_assoc, length-append,
}
use efsw.FileActionBatch.{
  Event, Identity, Entries, push_back, put_candidate, collect, identity_lt, is_add, is_delete,
}

-- An index of the events stands for an event with this property.
abbrev pub IsAt : (Event → Type 0) → List Event → ℕ → Type 0
IsAt P events i = (e : Event) × (get_elem? events i ≡ some e) × P e

abbrev pub IsAdd : Event → Type 0
IsAdd e = is_add e.action_type ≡ true

abbrev pub IsDelete : Event → Type 0
IsDelete e = is_delete e.action_type ≡ true

-- The created indices stand for additions, the deleted ones for deletions.
abbrev pub Fits : List Event → Identity × Entries → Type 0
Fits events (k, e) = All (IsAt IsAdd events) e.created × All (IsAt IsDelete events) e.deleted

pub get_elem?-middle {ℓ} :
    {A : Type ℓ} (before : List A) (x : A) (rest : List A) (i : ℕ)
    → length before ≡ i
    → get_elem? (before ++ x ∷ rest) i ≡ some x
get_elem?-middle [] x rest zero e = refl
get_elem?-middle [] x rest (suc i) e = absurd (omega arith)
get_elem?-middle (b ∷ before) x rest zero e = absurd (omega arith)
get_elem?-middle (b ∷ before) x rest (suc i) e = get_elem?-middle before x rest i (omega arith)

module _ (all : List Event) (i : ℕ) where
  -- The property that the index must have for the side to which it is pushed.
  abbrev Side : Bool → Type 0
  Side true = IsAt IsAdd all i
  Side false = IsAt IsDelete all i

  push_back-Fits :
      (k : Identity) (created : Bool) (e : Entries)
      → Side created
      → Fits all (k, e)
      → Fits all (k, push_back created i e)
  push_back-Fits k true e s (p, q) = (All-append (IsAt IsAdd all) e.created (i ∷ []) p (s, tt), q)
  push_back-Fits k false e s (p, q) =
      (p, All-append (IsAt IsDelete all) e.deleted (i ∷ []) q (s, tt))

  fresh-Fits :
      (k : Identity) (created : Bool)
      → Side created
      → Fits all (k, push_back created i (record { created = []; deleted = [] }))
  fresh-Fits k created s =
      push_back-Fits k created (record { created = []; deleted = [] }) s (tt, tt)

  pub put_candidate-Fits :
      (k : Identity) (created : Bool) (candidates : List (Identity × Entries))
      → Side created
      → All (Fits all) candidates
      → All (Fits all) (put_candidate k created i candidates)
  unfolding put_candidate
  put_candidate-Fits k created [] s a = (fresh-Fits k created s, tt)
  put_candidate-Fits k created ((l, e) ∷ rest) s (p, a) = elim (Bool-cases (identity_lt l k)) [
    | inl x ↦ rw x (p, put_candidate-Fits k created rest s a)
    | inr x ↦ elim (Bool-cases (identity_lt k l)) [
      | inl y ↦ rw (x, y) (fresh-Fits k created s, (p, a))
      | inr y ↦ rw (x, y) (push_back-Fits l created e s p, a)
    ]
  ]

is_delete_of :
    (e : Event)
    → is_add e.action_type ≡ false
    → (not (is_add e.action_type) && not (is_delete e.action_type)) ≡ false
    → IsDelete e
is_delete_of e a h = ground arith

candidate-Side :
    (all : List Event) (i : ℕ) (e : Event)
    → get_elem? all i ≡ some e
    → (not (is_add e.action_type) && not (is_delete e.action_type)) ≡ false
    → Side all i (is_add e.action_type)
candidate-Side all i e h k = elim (Bool-cases (is_add e.action_type)) [
  | inl a ↦ rw a (e, h, a)
  | inr a ↦ rw a (e, h, is_delete_of e a k)
]

-- The loop over the events from index `i` on keeps what the candidates stand for.
pub collect-Fits :
    (before events : List Event) (i : ℕ) (candidates : List (Identity × Entries))
    → length before ≡ i
    → All (Fits (before ++ events)) candidates
    → All (Fits (before ++ events)) (collect i events candidates)
unfolding collect
collect-Fits before [] i candidates n a = a
collect-Fits before (e ∷ events) i candidates n a =
    let shift = append_assoc before (e ∷ []) events in
    let next = λ (l : List (Identity × Entries)) (f : All (Fits (before ++ e ∷ events)) l).
      subst (λ es. All (Fits es) (collect (suc i) events l)) shift
        (collect-Fits (before ++ e ∷ []) events (suc i) l
          (omega (arith, length-append before (e ∷ [])))
          (subst (λ es. All (Fits es) l) (sym shift) f)) in
    elim (Bool-cases (e.info.inode == 0)) [
      | inl x ↦ rw x (next candidates a)
      | inr x ↦ elim (Bool-cases (not (is_add e.action_type) && not (is_delete e.action_type))) [
        | inl y ↦ rw (x, y) (next candidates a)
        | inr y ↦
            let side =
              candidate-Side (before ++ e ∷ events) i e (get_elem?-middle before e events i n) y in
            rw (x, y)
              (next _ (
                put_candidate-Fits (before ++ e ∷ events) i _ (is_add e.action_type) candidates side
                  a))
      ]
    ]
