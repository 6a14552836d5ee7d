-- ===== src/FileActionBatch/Passes.antt =====
-- What FileActionBatch::dispatch reports.
use mathlib.Core.List.{mem-cons_self, mem-cons_of_mem}
use mathlib.Core.Option.{some-injective}
use mathlib.Core.Logic.{◌⊎◌, inl, inr}
use efsw.Base.{
  ℕ, zero, suc, ◌==◌, ==_iff, ◌≡◌, refl, sym, ap, ◌∙◌, subst, Bool, true, false, List, [], ◌∷◌,
  ◌++◌, length, length-append, append_assoc, get_elem?, some, Option-cases, Bool-cases, All, arith,
  select, Mem, Text,
}
use efsw.FileSystem.{dir_add_slash_at_end, file_name_from_path, path_remove_file_name}
use efsw.FileInfo.{Os}
use efsw.FileActionBatch.{
  Action, add, delete, modified, moved, Event, Call, plain, plain_all, find_move, move_call,
  canonical_source_path, get_real_path, emit, dispatch,
}
use efsw.FileActionBatch.Candidates.{get_elem?-middle}
use efsw.FileActionBatch.Moves.{
  Move, Explained, source_of, destination_of, inside_source, inside_destination, Marked, MoveAt,
  joined, joined-Sound,
}

find_move-MoveAt :
    (events : List Event) (moves : List (ℕ × ℕ)) (i d : ℕ)
    → find_move moves i ≡ some d
    → All (MoveAt events) moves
    → MoveAt events (i, d)
find_move-MoveAt events [] i d h a = absurd (cc h)
find_move-MoveAt events ((c, e) ∷ moves) i d h a = elim (Bool-cases (c == i)) [
  | inl k ↦
      subst (λ n. MoveAt events (n, d)) ((==_iff c i).0 k)
        (subst (λ n. MoveAt events (c, n)) (cc (rw k at h)) a.0)
  | inr k ↦ find_move-MoveAt events moves i d (rw k at h) a.1
]

-- How `dispatch` treats the event at one index: three cases.
data Treated (os : Os) (all : List Event) (moves : List (ℕ × ℕ)) (i : ℕ) (e : Event)
    (es : List Event) (b : Bool) (bs : List Bool) : Type 0 where
  as_move :
      (source : Event)
      → Move all source e
      → emit os all moves i (e ∷ es) (b ∷ bs)
        ≡ move_call os source e ∷ emit os all moves (suc i) es bs
      → Treated os all moves i e es b bs
  left_out :
      b ≡ true
      → emit os all moves i (e ∷ es) (b ∷ bs) ≡ emit os all moves (suc i) es bs
      → Treated os all moves i e es b bs
  as_it_is :
      emit os all moves i (e ∷ es) (b ∷ bs) ≡ plain e ∷ emit os all moves (suc i) es bs
      → Treated os all moves i e es b bs

emit_moved :
    (os : Os) (all : List Event) (moves : List (ℕ × ℕ)) (i d : ℕ) (e source : Event)
    (es : List Event) (b : Bool) (bs : List Bool)
    → find_move moves i ≡ some d
    → get_elem? all d ≡ some source
    → emit os all moves i (e ∷ es) (b ∷ bs)
      ≡ move_call os source e ∷ emit os all moves (suc i) es bs
unfolding emit
emit_moved os all moves i d e source es b bs k h = ground (arith, k, h)

emit-Treated :
    (os : Os) (all : List Event) (moves : List (ℕ × ℕ)) (i : ℕ) (e : Event) (es : List Event)
    (b : Bool) (bs : List Bool)
    → get_elem? all i ≡ some e
    → All (MoveAt all) moves
    → Treated os all moves i e es b bs
unfolding emit
emit-Treated os all moves i e es b bs h a = elim (Option-cases (find_move moves i)) [
  | inr (d, k) ↦
      let (source, destination, hd, hc, v) = find_move-MoveAt all moves i d k a in
      let same : destination ≡ e = cc (some-injective _ _ (sym hc ∙ h)) in
      as_move source (subst (Move all source) same v)
        (emit_moved os all moves i d e source es b bs k hd)
  | inl k ↦ elim (Bool-cases b) [
    | inl m ↦ left_out m (ground (arith, k, m))
    | inr m ↦ as_it_is (ground (arith, k, m))
  ]
]

-- The report of a move: it is about the destination, and names the source by its path with the real
-- path of its directory, where that is found.
pub record Reports (os : Os) (source destination : Event) (c : Call) : Type 0 where
  pub watch : c.watch ≡ destination.watch
  pub directory : c.directory ≡ destination.directory
  pub filename : c.filename ≡ destination.filename
  pub action : c.action ≡ moved
  pub old_filename :
      (b : ℕ) (bs : Text)
      → os.realpath (path_remove_file_name source.info.filepath) ≡ some (b ∷ bs)
      → c.old_filename ≡ dir_add_slash_at_end (b ∷ bs) ++ file_name_from_path source.info.filepath

move_call-Reports :
    (os : Os) (source destination : Event)
    → Reports os source destination (move_call os source destination)
unfolding move_call canonical_source_path get_real_path
move_call-Reports os source destination = record {
  watch = refl;
  directory = refl;
  filename = refl;
  action = refl;
  old_filename = λ b bs e. rw (move_call, canonical_source_path, get_real_path, e) refl;
}

-- A call that `dispatch` makes for this batch: an event of the batch as it is, or the report of one
-- of its moves.
pub data Justified (os : Os) (events : List Event) (c : Call) : Type 0 where
  event : (e : Event) → Mem e events → c ≡ plain e → Justified os events c
  move :
      (source destination : Event)
      → Move events source destination
      → Reports os source destination c
      → Justified os events c

-- The events from index `i` on.
abbrev From : List Event → ℕ → List Event → Type 0
From all i [] = Unit
From all i (e ∷ es) = (get_elem? all i ≡ some e) × From all (suc i) es

From-append : (before es : List Event) (i : ℕ) → length before ≡ i → From (before ++ es) i es
From-append before [] i n = tt
From-append before (e ∷ es) i n = (
  get_elem?-middle before e es i n,
  subst (λ all. From all (suc i) es) (append_assoc before (e ∷ []) es)
      (From-append (before ++ e ∷ []) es (suc i) (omega (arith, length-append before (e ∷ [])))),
)

mem-get_elem? : (es : List Event) (i : ℕ) (e : Event) → get_elem? es i ≡ some e → Mem e es
mem-get_elem? [] i e h = absurd (cc h)
mem-get_elem? (f ∷ es) zero e h = subst (λ g. Mem g (f ∷ es)) (some-injective _ _ h) mem-cons_self
mem-get_elem? (f ∷ es) (suc i) e h = mem-cons_of_mem f (mem-get_elem? es i e h)

abbrev pub is_modified : Action → Bool
is_modified modified = true
is_modified _ = false

churn-delete : (k : Action) → k ≡ delete → is_modified k ≡ false
churn-delete k h = rw h refl

churn-add : (k : Action) → k ≡ add → is_modified k ≡ false
churn-add k h = rw h refl

select-churn :
    (e : Event) (es : List Event)
    → is_modified e.action_type ≡ false
    → plain_all (select (λ e. is_modified e.action_type) (e ∷ es))
      ≡ plain_all (select (λ e. is_modified e.action_type) es)
select-churn e es h = rw h refl

module _ (os : Os) (all : List Event) (moves : List (ℕ × ℕ)) (a : All (MoveAt all) moves) where
  emit-Justified :
      (i : ℕ) (es : List Event) (bs : List Bool)
      → From all i es
      → All (Justified os all) (emit os all moves i es bs)
  unfolding emit
  emit-Justified i [] bs f = tt
  emit-Justified i (e ∷ es) [] f = tt
  emit-Justified i (e ∷ es) (b ∷ bs) (h, f) =
      let ih = emit-Justified (suc i) es bs f in
      elim (emit-Treated os all moves i e es b bs h a) [
        | as_move source v r ↦
            subst (All (Justified os all)) (sym r)
              (move source e v (move_call-Reports os source e), ih)
        | left_out m r ↦ subst (All (Justified os all)) (sym r) ih
        | as_it_is r ↦
            subst (All (Justified os all)) (sym r) (event e (mem-get_elem? all i e h) refl, ih)
      ]

  -- What becomes of an event.
  abbrev Kept : List Call → Event → Type 0
  Kept calls e = Mem (plain e) calls ⊎ Explained all e

  Kept-cons :
      (c : Call) (calls : List Call) (es : List Event)
      → All (Kept calls) es
      → All (Kept (c ∷ calls)) es
  Kept-cons c calls [] k = tt
  Kept-cons c calls (e ∷ es) (inl m, k) = (inl (mem-cons_of_mem c m), Kept-cons c calls es k)
  Kept-cons c calls (e ∷ es) (inr x, k) = (inr x, Kept-cons c calls es k)

  emit-Kept :
      (i : ℕ) (es : List Event) (bs : List Bool)
      → From all i es
      → Marked all es bs
      → All (Kept (emit os all moves i es bs)) es
  unfolding emit
  emit-Kept i [] bs f m = tt
  emit-Kept i (e ∷ es) [] f m = absurd (cc m)
  emit-Kept i (e ∷ es) (b ∷ bs) (h, f) (x, m) =
      let ih = emit-Kept (suc i) es bs f m in
      elim (emit-Treated os all moves i e es b bs h a) [
        | as_move source v r ↦
            subst (λ cs. All (Kept cs) (e ∷ es)) (sym r)
              (inr (destination_of source v), Kept-cons _ _ es ih)
        | left_out k r ↦ subst (λ cs. All (Kept cs) (e ∷ es)) (sym r) (inr (x k), ih)
        | as_it_is r ↦
            subst (λ cs. All (Kept cs) (e ∷ es)) (sym r) (inl mem-cons_self, Kept-cons _ _ es ih)
      ]

  Explained-churn : (e : Event) → Explained all e → is_modified e.action_type ≡ false
  Explained-churn e (source_of d v) = churn-delete e.action_type v.gone
  Explained-churn e (destination_of s v) = churn-add e.action_type v.came
  Explained-churn e (inside_source s d v x g p) = churn-delete e.action_type g
  Explained-churn e (inside_destination s d v x g p) = churn-add e.action_type g

  emit-modified :
      (i : ℕ) (es : List Event) (bs : List Bool)
      → From all i es
      → Marked all es bs
      → select (λ c. is_modified c.action) (emit os all moves i es bs)
        ≡ plain_all (select (λ e. is_modified e.action_type) es)
  unfolding emit move_call
  emit-modified i [] bs f m = refl
  emit-modified i (e ∷ es) [] f m = absurd (cc m)
  emit-modified i (e ∷ es) (b ∷ bs) (h, f) (x, m) =
      let ih = emit-modified (suc i) es bs f m in
      elim (emit-Treated os all moves i e es b bs h a) [
        | as_move source v r ↦
            ap (select (λ c. is_modified c.action)) r
            ∙ ih
            ∙ sym (select-churn e es (Explained-churn e (destination_of source v)))
        | left_out k r ↦
            ap (select (λ c. is_modified c.action)) r
            ∙ ih
            ∙ sym (select-churn e es (Explained-churn e (x k)))
        | as_it_is r ↦
            ap (select (λ c. is_modified c.action)) r
            ∙ (elim (Bool-cases (is_modified e.action_type)) [
              | inl k ↦ rw k (ap (◌∷◌ (plain e)) ih)
              | inr k ↦ rw k ih
            ])
      ]

-- A run of `dispatch` for a listener that wants moves.
module _ (os : Os) (events : List Event) where
  -- Every call that `dispatch` makes reports an event of the batch as it is, or reports as moved
  -- the destination of a deletion and a creation in two directories with the same non-zero inode
  -- and device, which no other deletion or creation of the batch has, the same metadata and, for a
  -- regular file, one link each, with the path of the source, whose directory is resolved where it
  -- can be, as the old name.
  pub dispatch-Justified : All (Justified os events) (dispatch os true true events).0
  unfolding dispatch
  dispatch-Justified =
      emit-Justified os events (joined events).moves (joined-Sound events).moves 0 events _
        (From-append [] events 0 refl)

  -- Every event of the batch is reported as it is, unless it is half of such a move, or a deletion
  -- inside the source directory or a creation inside the destination directory of one: below its
  -- path and a separator.
  pub dispatch-Kept :
      All (λ e. Mem (plain e) (dispatch os true true events).0 ⊎ Explained events e) events
  unfolding dispatch
  dispatch-Kept =
      emit-Kept os events (joined events).moves (joined-Sound events).moves 0 events _
        (From-append [] events 0 refl) (joined-Sound events).marked

  -- Modifications are reported as they are, all of them, in their order.
  pub dispatch-modified :
      select (λ c. is_modified c.action) (dispatch os true true events).0
      ≡ plain_all (select (λ e. is_modified e.action_type) events)
  unfolding dispatch
  dispatch-modified =
      emit-modified os events (joined events).moves (joined-Sound events).moves 0 events _
        (From-append [] events 0 refl) (joined-Sound events).marked
