-- ===== src/FileActionBatch/Moves.antt =====
-- The moves that FileActionBatch::dispatch finds, and why it suppresses an event.
use mathlib.Core.Logic.{inl, inr}
use efsw.Base.{
  ℕ, zero, suc, ◌==◌, ==_iff, ◌≡◌, refl, subst, Bool, true, false, ◌&&◌, List, [], ◌∷◌, length,
  get_elem?, get_or, if◌then◌else◌, some, Bool-cases, All, arith,
}
use efsw.FileInfo.{is_directory}
use efsw.FileActionBatch.{
  add, delete, Event, Identity, Entries, Joined, is_add, is_delete, is_move, set_true,
  suppress_inside, collect, path_contains, record_move, join, join_all, none_suppressed,
}
use efsw.FileActionBatch.Alone.{Listed, collect-Listed, only_pair}
use efsw.FileActionBatch.Meaning.{
  AreHalves, IsInside, is_add_lem, is_delete_lem, is_move-AreHalves, path_contains-IsInside,
}
use efsw.FileActionBatch.Candidates.{IsAt, IsAdd, IsDelete, Fits, collect-Fits}

-- A deletion and a creation of the batch that are the two halves of a move, and the only ones of
-- their inode and device.
pub record Move (events : List Event) (source destination : Event) : Type 0 where
  pub from : (d : ℕ) × (get_elem? events d ≡ some source)
  pub to : (c : ℕ) × (get_elem? events c ≡ some destination)
  pub gone : source.action_type ≡ delete
  pub came : destination.action_type ≡ add
  pub halves : AreHalves source destination
  pub alone :
      (j : ℕ) (e : Event)
      → get_elem? events j ≡ some e
      → e.info.inode ≡ destination.info.inode
      → e.info.device ≡ destination.info.device
      → (e.action_type ≡ add → j ≡ to.0) × (e.action_type ≡ delete → j ≡ from.0)

-- An event that need not be reported: it is half of a move, or lies inside a moved directory.
pub data Explained (events : List Event) (e : Event) : Type 0 where
  source_of : (destination : Event) → Move events e destination → Explained events e
  destination_of : (source : Event) → Move events source e → Explained events e
  inside_source :
      (source destination : Event)
      → Move events source destination
      → is_directory source.info ≡ true
      → e.action_type ≡ delete
      → IsInside source.info.filepath e.info.filepath
      → Explained events e
  inside_destination :
      (source destination : Event)
      → Move events source destination
      → is_directory source.info ≡ true
      → e.action_type ≡ add
      → IsInside destination.info.filepath e.info.filepath
      → Explained events e

-- Whatever is suppressed is explained; the marks are as many as the events.
abbrev pub Marked : List Event → List Event → List Bool → Type 0
Marked all [] [] = Unit
Marked all [] (b ∷ bs) = true ≡ false
Marked all (e ∷ es) [] = true ≡ false
Marked all (e ∷ es) (b ∷ bs) = (b ≡ true → Explained all e) × Marked all es bs

none_suppressed-Marked : (all es : List Event) → Marked all es (none_suppressed es)
none_suppressed-Marked all [] = tt
none_suppressed-Marked all (e ∷ es) = (λ h. absurd (cc h), none_suppressed-Marked all es)

set_true-Marked :
    (all es : List Event) (bs : List Bool) (i : ℕ) (e : Event)
    → get_elem? es i ≡ some e
    → Explained all e
    → Marked all es bs
    → Marked all es (set_true bs i)
set_true-Marked all [] [] i e h x m = tt
set_true-Marked all [] (b ∷ bs) i e h x m = absurd (cc m)
set_true-Marked all (f ∷ es) [] i e h x m = absurd (cc m)
set_true-Marked all (f ∷ es) (b ∷ bs) zero e h x m = (λ _. subst (Explained all) (cc h) x, m.1)
set_true-Marked all (f ∷ es) (b ∷ bs) (suc i) e h x m = (m.0, set_true-Marked all es bs i e h x m.1)

inside-Marked :
    (all : List Event) (source destination : Event) (es : List Event) (bs : List Bool)
    → Move all source destination
    → is_directory source.info ≡ true
    → Marked all es bs
    → Marked all es (suppress_inside source destination es bs)
unfolding suppress_inside
inside-Marked all s d [] bs v x m = m
inside-Marked all s d (e ∷ es) [] v x m = m
inside-Marked all s d (e ∷ es) (b ∷ bs) v x m = (reason, inside-Marked all s d es bs v x m.1)
  where
    reason :
        (if is_delete e.action_type && path_contains s.info.filepath e.info.filepath
            then true
            else if is_add e.action_type && path_contains d.info.filepath e.info.filepath
            then true
            else b)
          ≡ true
        → Explained all e
    reason =
        elim (Bool-cases
          (is_delete e.action_type && path_contains s.info.filepath e.info.filepath)) [
            | inl k ↦ λ _.
                inside_source s d v x (is_delete_lem _ (ground (arith, k)))
                  (path_contains-IsInside _ _ (ground (arith, k)))
            | inr k ↦
                elim (Bool-cases
                  (is_add e.action_type && path_contains d.info.filepath e.info.filepath)) [
                    | inl l ↦ λ _.
                        inside_destination s d v x (is_add_lem _ (ground (arith, l)))
                          (path_contains-IsInside _ _ (ground (arith, l)))
                    | inr l ↦ λ h. m.0 (rw (k, l) at h)
                  ]
          ]

-- The indices of a recorded move stand for its two events.
abbrev pub MoveAt : List Event → ℕ × ℕ → Type 0
MoveAt events (c, d) =
    (source : Event) × (destination : Event) × (get_elem? events d ≡ some source)
    × (get_elem? events c ≡ some destination)
    × Move events source destination

pub record Sound (events : List Event) (s : Joined) : Type 0 where
  pub marked : Marked events events s.suppressed
  pub moves : All (MoveAt events) s.moves

module _ (events : List Event) where
  record_move-Sound :
      (s : Joined) (c d : ℕ) (source destination : Event)
      → get_elem? events d ≡ some source
      → get_elem? events c ≡ some destination
      → Move events source destination
      → Sound events s
      → Sound events (record_move events s c d source destination)
  record_move-Sound s c d source destination hd hc v a =
      let first =
        set_true-Marked events events s.suppressed d source hd (source_of destination v) a.marked in
      let both =
        set_true-Marked events events (set_true s.suppressed d) c destination hc
          (destination_of source v) first in
      elim (Bool-cases (is_directory source.info)) [
        | inl x ↦ rw x (record {
          marked = inside-Marked events source destination events _ v x both;
          moves = ((source, destination, hd, hc, v), a.moves);
        })
        | inr x ↦
            rw x (record { marked = both; moves = ((source, destination, hd, hc, v), a.moves) })
      ]

  single : (xs : List ℕ) → (length xs == 1) ≡ true → xs ≡ get_or xs 0 0 ∷ []
  single [] h = absurd (cc h)
  single (x ∷ []) h = refl
  single (x ∷ y ∷ xs) h = absurd (omega (arith, (==_iff (length (x ∷ y ∷ xs)) 1).0 h))

  first_of : (P : ℕ → Type 0) (xs : List ℕ) → (length xs == 1) ≡ true → All P xs → P (get_or xs 0 0)
  first_of P [] h a = absurd (cc h)
  first_of P (x ∷ xs) h a = a.0

  join-Sound :
      (s : Joined) (k : Identity) (entries : Entries)
      → Fits events (k, entries)
      → Listed events (k, entries)
      → Sound events s
      → Sound events (join events s entries)
  unfolding join
  join-Sound s k entries (fc, fd) l a = elim (Bool-cases (length entries.created == 1)) [
    | inr x ↦ rw x a
    | inl x ↦ elim (Bool-cases (length entries.deleted == 1)) [
      | inr y ↦ rw (x, y) a
      | inl y ↦
          let (dst, hc, pc) = first_of (IsAt IsAdd events) entries.created x fc in
          let (src, hd, pd) = first_of (IsAt IsDelete events) entries.deleted y fd in
          elim (Bool-cases (is_move src dst)) [
            | inr z ↦ rw (x, y, hd, hc, z) a
            | inl z ↦
                let v : Move events src dst = record {
                  from = (get_or entries.deleted 0 0, hd);
                  to = (get_or entries.created 0 0, hc);
                  gone = is_delete_lem _ pd;
                  came = is_add_lem _ pc;
                  halves = is_move-AreHalves src dst z;
                  alone =
                      only_pair events k entries _ _ src dst l (single entries.created x)
                        (single entries.deleted y) hd hc;
                } in
                rw (x, y, hd, hc, z) (record_move-Sound s _ _ src dst hd hc v a)
          ]
    ]
  ]

  join_all-Sound :
      (s : Joined) (candidates : List (Identity × Entries))
      → All (Fits events) candidates
      → All (Listed events) candidates
      → Sound events s
      → Sound events (join_all events s candidates)
  unfolding join_all
  join_all-Sound s [] f l a = a
  join_all-Sound s ((k, entries) ∷ rest) f l a =
      join_all-Sound (join events s entries) rest f.1 l.1 (join-Sound s k entries f.0 l.0 a)

  -- The state of the loop over the candidates at its end.
  abbrev pub joined : Joined
  joined =
      join_all events (record { suppressed = none_suppressed events; moves = [] })
        (collect 0 events [])

  pub joined-Sound : Sound events joined
  joined-Sound =
      join_all-Sound _ _ (collect-Fits [] events 0 [] refl tt) (collect-Listed events)
        (record { marked = none_suppressed-Marked events events; moves = tt })
