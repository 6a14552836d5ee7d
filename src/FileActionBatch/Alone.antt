-- ===== src/FileActionBatch/Alone.antt =====
-- Which events the map of candidates in FileActionBatch::dispatch lists under an identity: all of
-- the batch with that identity, so that a pair that is joined is the only one.
use mathlib.Core.Option.{some-injective}
use efsw.Base.{
  ℕ, zero, suc, ◌+◌, ◌≤◌, ◌==◌, ◌≡◌, refl, sym, ap, ◌∙◌, inl, inr, Bool, true, false, not, ◌&&◌,
  ◌||◌, List, [], ◌∷◌, ◌++◌, append-nil, append_assoc, get_or, drop, get_elem?, if◌then◌else◌, some,
  Bool-cases, All, All-map, arith,
}
use efsw.FileActionBatch.{
  Action, add, delete, modified, moved, Event, Identity, Entries, push_back, put_candidate, collect,
  is_add, is_delete,
}
use efsw.FileActionBatch.ByIdentity.{
  same_identity, entries_of, entries_of-put_candidate, Ascending, put_candidate-Ascending,
  entries_of-Ascending,
}

abbrev identity_of : Event → Identity
identity_of e = record { device = e.info.device; inode = e.info.inode }

-- An event that belongs to an identity, on the created or the deleted side.
abbrev pub is_listed : Bool → Identity → Event → Bool
is_listed created k e =
    not (e.info.inode == 0)
    && (same_identity (identity_of e) k
        && (if created then is_add e.action_type else is_delete e.action_type))

-- The indices, from `i` on, of the events that pass a test.
abbrev pub indices : (Event → Bool) → ℕ → List Event → List ℕ
indices test i [] = []
indices test i (e ∷ es) = let rest = indices test (suc i) es in if test e then i ∷ rest else rest

abbrev one : Bool → ℕ → List ℕ
one b i = if b then i ∷ [] else []

one-indices :
    (test : Event → Bool) (i : ℕ) (e : Event) (es : List Event)
    → one (test e) i ++ indices test (suc i) es ≡ indices test i (e ∷ es)
one-indices test i e es = elim (Bool-cases (test e)) [ inl h ↦ rw h refl | inr h ↦ rw h refl ]

-- One round of the loop.
abbrev round : ℕ → Event → List (Identity × Entries) → List (Identity × Entries)
round i e cs =
    if e.info.inode == 0 || (not (is_add e.action_type) && not (is_delete e.action_type))
    then cs
    else put_candidate (identity_of e) (is_add e.action_type) i cs

add_not_delete : (a : Action) → is_add a ≡ true → is_delete a ≡ false
unfolding is_add is_delete
add_not_delete add h = refl
add_not_delete delete h = cc h
add_not_delete modified h = refl
add_not_delete moved h = refl

round-entries :
    (i : ℕ) (e : Event) (cs : List (Identity × Entries)) (k : Identity)
    → ((entries_of (round i e cs) k).created
        ≡ (entries_of cs k).created ++ one (is_listed true k e) i)
      × ((entries_of (round i e cs) k).deleted
          ≡ (entries_of cs k).deleted ++ one (is_listed false k e) i)
round-entries i e cs k =
    let e0 = entries_of cs k in
    let same_c = sym (append-nil e0.created) in
    let same_d = sym (append-nil e0.deleted) in
    elim (Bool-cases (e.info.inode == 0)) [
      | inl x ↦ rw x (same_c, same_d)
      | inr x ↦ elim (Bool-cases (is_add e.action_type)) [
        | inl y ↦
            let z = add_not_delete e.action_type y in
            rw (x, y, z, entries_of-put_candidate (identity_of e) true i cs k)
              (pushed true (same_identity (identity_of e) k) e0 same_c same_d)
        | inr y ↦ elim (Bool-cases (is_delete e.action_type)) [
          | inl z ↦
              rw (x, y, z, entries_of-put_candidate (identity_of e) false i cs k)
                (pushed false (same_identity (identity_of e) k) e0 same_c same_d)
          | inr z ↦
              rw (x, y, z)
                (
                  unlisted (same_identity (identity_of e) k) e0.created,
                  unlisted (same_identity (identity_of e) k) e0.deleted,
                )
        ]
      ]
    ]
  where
    unlisted : (b : Bool) (xs : List ℕ) → xs ≡ xs ++ one (b && false) i
    unlisted true xs = sym (append-nil xs)
    unlisted false xs = sym (append-nil xs)

    pushed :
        (created same : Bool) (e0 : Entries)
        → e0.created ≡ e0.created ++ []
        → e0.deleted ≡ e0.deleted ++ []
        → ((if same then push_back created i e0 else e0).created
            ≡ e0.created ++ one (same && created) i)
          × ((if same then push_back created i e0 else e0).deleted
              ≡ e0.deleted ++ one (same && not created) i)
    pushed true true e0 c d = (refl, d)
    pushed false true e0 c d = (c, refl)
    pushed true false e0 c d = (c, d)
    pushed false false e0 c d = (c, d)

round-Ascending :
    (i : ℕ) (e : Event) (cs : List (Identity × Entries)) → Ascending cs → Ascending (round i e cs)
round-Ascending i e cs a =
    elim (Bool-cases
      (e.info.inode == 0 || (not (is_add e.action_type) && not (is_delete e.action_type)))) [
        | inl x ↦ rw x a
        | inr x ↦ rw x (put_candidate-Ascending (identity_of e) (is_add e.action_type) i cs a)
      ]

collect-Ascending :
    (i : ℕ) (es : List Event) (cs : List (Identity × Entries))
    → Ascending cs
    → Ascending (collect i es cs)
unfolding collect
collect-Ascending i [] cs a = a
collect-Ascending i (e ∷ es) cs a =
    collect-Ascending (suc i) es (round i e cs) (round-Ascending i e cs a)

-- The loop appends the indices of the events of an identity to its entries.
collect-entries :
    (i : ℕ) (es : List Event) (cs : List (Identity × Entries)) (k : Identity)
    → ((entries_of (collect i es cs) k).created
        ≡ (entries_of cs k).created ++ indices (is_listed true k) i es)
      × ((entries_of (collect i es cs) k).deleted
          ≡ (entries_of cs k).deleted ++ indices (is_listed false k) i es)
unfolding collect
collect-entries i [] cs k = (sym (append-nil _), sym (append-nil _))
collect-entries i (e ∷ es) cs k =
    let ih = collect-entries (suc i) es (round i e cs) k in
    let step = round-entries i e cs k in
    (
      joined true (entries_of cs k).created (entries_of (round i e cs) k).created ih.0 step.0,
      joined false (entries_of cs k).deleted (entries_of (round i e cs) k).deleted ih.1 step.1,
    )
  where
    joined :
        (created : Bool) (xs ys : List ℕ) {zs : List ℕ}
        → zs ≡ ys ++ indices (is_listed created k) (suc i) es
        → ys ≡ xs ++ one (is_listed created k e) i
        → zs ≡ xs ++ indices (is_listed created k) i (e ∷ es)
    joined created xs ys h g =
        h
        ∙ ap (λ l. l ++ indices (is_listed created k) (suc i) es) g
        ∙ append_assoc xs (one (is_listed created k e) i) (indices (is_listed created k) (suc i) es)
        ∙ ap (λ l. xs ++ l) (one-indices (is_listed created k) i e es)

-- The entries under a key are the indices of all events of that identity, on each side.
abbrev pub Listed : List Event → Identity × Entries → Type 0
Listed es (k, e) =
    (e.created ≡ indices (is_listed true k) 0 es) × (e.deleted ≡ indices (is_listed false k) 0 es)

pub collect-Listed : (es : List Event) → All (Listed es) (collect 0 es [])
unfolding entries_of Ascending
collect-Listed es =
    All-map (collect 0 es [])
      (λ (k, e) h. (
        ap (λ x. x.created) (sym h) ∙ (collect-entries 0 es [] k).0,
        ap (λ x. x.deleted) (sym h) ∙ (collect-entries 0 es [] k).1,
      ))
      (entries_of-Ascending (collect 0 es []) (collect-Ascending 0 es [] tt))

-- A list of indices with one member.
indices_none :
    (test : Event → Bool) (i : ℕ) (es : List Event) (j : ℕ) (e : Event)
    → indices test i es ≡ []
    → get_elem? es j ≡ some e
    → test e ≡ true
    → ⊥
indices_none test i [] j e h g t = cc g
indices_none test i (f ∷ es) zero e h g t = ground (arith, h, t, ap test (some-injective _ _ g))
indices_none test i (f ∷ es) (suc j) e h g t = elim (Bool-cases (test f)) [
  | inl x ↦ cc (rw x at h)
  | inr x ↦ indices_none test (suc i) es j e (rw x at h) g t
]

indices_head :
    (test : Event → Bool) (i c : ℕ) (f : Event) (es : List Event)
    → indices test i (f ∷ es) ≡ c ∷ []
    → test f ≡ true
    → (i ≡ c) × (indices test (suc i) es ≡ [])
indices_head test i c f es h x = let k = rw x at h in (ap (λ l. get_or l 0 0) k, ap (drop 1) k)

indices_single :
    (test : Event → Bool) (i c : ℕ) (es : List Event) (j : ℕ) (e : Event)
    → indices test i es ≡ c ∷ []
    → get_elem? es j ≡ some e
    → test e ≡ true
    → i + j ≡ c
indices_single test i c [] j e h g t = cc g
indices_single test i c (f ∷ es) zero e h g t =
    omega (arith, (indices_head test i c f es h (ap test (some-injective _ _ g) ∙ t)).0)
indices_single test i c (f ∷ es) (suc j) e h g t = elim (Bool-cases (test f)) [
  | inl x ↦ absurd (indices_none test (suc i) es j e (indices_head test i c f es h x).1 g t)
  | inr x ↦ omega (arith, indices_single test (suc i) c es j e (rw x at h) g t)
]

indices_bound :
    (test : Event → Bool) (i c : ℕ) (es : List Event) → indices test i es ≡ c ∷ [] → i ≤ c
indices_bound test i c [] h = cc h
indices_bound test i c (f ∷ es) h = elim (Bool-cases (test f)) [
  | inl x ↦ omega (arith, (indices_head test i c f es h x).0)
  | inr x ↦ omega (arith, indices_bound test (suc i) c es (rw x at h))
]

indices_passes :
    (test : Event → Bool) (i c : ℕ) (es : List Event) (j : ℕ) (e : Event)
    → indices test i es ≡ c ∷ []
    → get_elem? es j ≡ some e
    → i + j ≡ c
    → test e ≡ true
indices_passes test i c [] j e h g n = cc g
indices_passes test i c (f ∷ es) zero e h g n = elim (Bool-cases (test f)) [
  | inl x ↦ ap test (sym (some-injective _ _ g)) ∙ x
  | inr x ↦ absurd (omega (arith, indices_bound test (suc i) c es (rw x at h)))
]
indices_passes test i c (f ∷ es) (suc j) e h g n = elim (Bool-cases (test f)) [
  | inl x ↦ absurd (omega (arith, (indices_head test i c f es h x).0))
  | inr x ↦ indices_passes test (suc i) c es j e (rw x at h) g (omega arith)
]

-- The two lists of an identity have one index each: no other event of the batch is a creation or a
-- deletion with the inode and the device of these two.
pub only_pair :
    (events : List Event) (k : Identity) (entries : Entries) (c d : ℕ) (source destination : Event)
    → Listed events (k, entries)
    → entries.created ≡ c ∷ []
    → entries.deleted ≡ d ∷ []
    → get_elem? events d ≡ some source
    → get_elem? events c ≡ some destination
    → (j : ℕ) (e : Event) → get_elem? events j ≡ some e
    → e.info.inode ≡ destination.info.inode
    → e.info.device ≡ destination.info.device
    → (e.action_type ≡ add → j ≡ c) × (e.action_type ≡ delete → j ≡ d)
unfolding is_add is_delete
only_pair events k entries c d source destination l one_c one_d hd hc j e h inode device =
    let listed =
      indices_passes (is_listed true k) 0 c events c destination (sym l.0 ∙ one_c) hc
        (omega arith) in
    (
      λ a. omega (
        arith,
        indices_single (is_listed true k) 0 c events j e (sym l.0 ∙ one_c) h
            (ground (arith, listed, inode, device, ap is_add a)),
      ),
      λ a. omega (
        arith,
        indices_single (is_listed false k) 0 d events j e (sym l.1 ∙ one_d) h
            (ground (arith, listed, inode, device, ap is_delete a)),
      ),
    )
