-- ===== src/DirWatcher/Find/Keys.antt =====
-- The keys of `Directories`: they are in order, so that each name has one directory.
use efsw.Base.{
  ◌≡◌, refl, sym, subst, true, false, Text, text_lt, text_eq, text_eq_iff, less, same, greater,
  text-Compared, text_lt_trans, text_eq_refl, text_eq-sym, text_lt-eq, inl, inr, Bool-cases, none,
  some,
}
use efsw.DirWatcher.{Tree, Children, leaf, child, find_child, insert, erase}

-- Every key is greater than a name.
unfoldable pub IsAbove : Text → Children → Type 0
IsAbove name leaf = Unit
IsAbove name (child n t cs) = (text_lt name n ≡ true) × IsAbove name cs

unfoldable pub IsSorted : Children → Type 0
unfolding IsAbove
IsSorted leaf = Unit
IsSorted (child n t cs) = IsAbove n cs × IsSorted cs

IsAbove-trans : (a b : Text) (cs : Children) → text_lt a b ≡ true → IsAbove b cs → IsAbove a cs
unfolding IsAbove
IsAbove-trans a b leaf h k = tt
IsAbove-trans a b (child n t cs) h k = (text_lt_trans a b n h k.0, IsAbove-trans a b cs h k.1)

insert-IsAbove :
    (a name : Text) (t : Tree) (cs : Children)
    → text_lt a name ≡ true
    → IsAbove a cs
    → IsAbove a (insert name t cs)
unfolding insert IsAbove
insert-IsAbove a name t leaf h k = (h, tt)
insert-IsAbove a name t (child n u cs) h k = elim (text-Compared name n) [
  | less l e g ↦ rw l (h, k)
  | same e l q ↦ rw (l, text_eq-sym n name, q) k
  | greater l e g ↦ rw (l, text_eq-sym n name, e) (k.0, insert-IsAbove a name t cs h k.1)
]

erase-IsAbove : (a name : Text) (cs : Children) → IsAbove a cs → IsAbove a (erase name cs)
unfolding erase IsAbove
erase-IsAbove a name leaf k = tt
erase-IsAbove a name (child n u cs) k = elim (Bool-cases (text_eq n name)) [
  | inl e ↦ rw e k.1
  | inr e ↦ rw e (k.0, erase-IsAbove a name cs k.1)
]

pub insert-IsSorted :
    (name : Text) (t : Tree) (cs : Children) → IsSorted cs → IsSorted (insert name t cs)
unfolding insert IsSorted IsAbove
insert-IsSorted name t leaf k = (tt, tt)
insert-IsSorted name t (child n u cs) k = elim (text-Compared name n) [
  | less l e g ↦ rw l ((l, IsAbove-trans name n cs l k.0), k)
  | same e l q ↦ rw (l, text_eq-sym n name, q) k
  | greater l e g ↦
      rw (l, text_eq-sym n name, e)
        (insert-IsAbove n name t cs g k.0, insert-IsSorted name t cs k.1)
]

pub erase-IsSorted : (name : Text) (cs : Children) → IsSorted cs → IsSorted (erase name cs)
unfolding erase IsSorted
erase-IsSorted name leaf k = tt
erase-IsSorted name (child n u cs) k = elim (Bool-cases (text_eq n name)) [
  | inl e ↦ rw e k.1
  | inr e ↦ rw e (erase-IsAbove n name cs k.0, erase-IsSorted name cs k.1)
]

pub find_child-above : (name : Text) (cs : Children) → IsAbove name cs → find_child cs name ≡ none
unfolding find_child IsAbove
find_child-above name leaf k = refl
find_child-above name (child n u cs) k =
    rw (text_eq-sym n name, text_lt-eq name n k.0) (find_child-above name cs k.1)

pub find_child-insert-same :
    (name : Text) (t : Tree) (cs : Children) → find_child (insert name t cs) name ≡ some t
unfolding find_child insert
find_child-insert-same name t leaf = rw (text_eq_refl name) refl
find_child-insert-same name t (child n u cs) = elim (text-Compared name n) [
  | less l e g ↦ rw (l, text_eq_refl name) refl
  | same e l q ↦ rw (l, text_eq-sym n name, q, text_eq-sym n name, q) refl
  | greater l e g ↦
      rw (l, text_eq-sym n name, e, text_eq-sym n name, e) (find_child-insert-same name t cs)
]

find_child-insert-other :
    (name : Text) (t : Tree) (other : Text) (cs : Children)
    → text_eq name other ≡ false
    → find_child (insert name t cs) other ≡ find_child cs other
unfolding find_child insert
find_child-insert-other name t other leaf h = rw h refl
find_child-insert-other name t other (child n u cs) h = elim (text-Compared name n) [
  | less l e g ↦ rw (l, h) refl
  | same e l q ↦
      let k : text_eq n other ≡ false = subst (λ m. text_eq m other ≡ false) e h in
      rw (l, text_eq-sym n name, q, k) refl
  | greater l e g ↦
      rw (l, text_eq-sym n name, e) (rw (find_child-insert-other name t other cs h) refl)
]

find_child-erase-other :
    (name other : Text) (cs : Children)
    → text_eq name other ≡ false
    → find_child (erase name cs) other ≡ find_child cs other
unfolding find_child erase
find_child-erase-other name other leaf h = refl
find_child-erase-other name other (child n u cs) h = elim (Bool-cases (text_eq n name)) [
  | inl e ↦
      let k : text_eq n other ≡ false =
        subst (λ m. text_eq m other ≡ false) (sym ((text_eq_iff n name).0 e)) h in
      rw (e, k) refl
  | inr e ↦ rw e (rw (find_child-erase-other name other cs h) refl)
]

find_child-erase-same :
    (name : Text) (cs : Children) → IsSorted cs → find_child (erase name cs) name ≡ none
unfolding find_child erase IsSorted
find_child-erase-same name leaf k = refl
find_child-erase-same name (child n u cs) k = elim (Bool-cases (text_eq n name)) [
  | inl e ↦
      rw e (find_child-above name cs (subst (λ m. IsAbove m cs) ((text_eq_iff n name).0 e) k.0))
  | inr e ↦ rw (e, e) (find_child-erase-same name cs k.1)
]

-- A child that is found under a name that is above all keys has a greater name.
pub find_child-IsAbove :
    (a name : Text) (t : Tree) (cs : Children)
    → IsAbove a cs
    → find_child cs name ≡ some t
    → text_lt a name ≡ true
unfolding find_child IsAbove
find_child-IsAbove a name t leaf k h = cc
find_child-IsAbove a name t (child n u cs) k h = elim (Bool-cases (text_eq n name)) [
  | inl e ↦ subst (λ m. text_lt a m ≡ true) ((text_eq_iff n name).0 e) k.0
  | inr e ↦ find_child-IsAbove a name t cs k.1 (subst (λ o. o ≡ some t) (rw e refl) h)
]

-- After a directory is entered under a name, that name has it and every other name has what it
-- had; after the name is erased from children whose keys are in order, it has none and every other
-- name has what it had; and both leave the keys in order.
pub insert-erase :
    (name : Text) (t : Tree) (cs : Children)
    → IsSorted cs
    → (IsSorted (insert name t cs) × IsSorted (erase name cs))
      × ((find_child (insert name t cs) name ≡ some t)
          × ((find_child (erase name cs) name ≡ none)
              × ((other : Text)
                  → text_eq name other ≡ false
                  → (find_child (insert name t cs) other ≡ find_child cs other)
                    × (find_child (erase name cs) other ≡ find_child cs other))))
insert-erase name t cs k = (
  (insert-IsSorted name t cs k, erase-IsSorted name cs k),
  (
    find_child-insert-same name t cs,
    (
      find_child-erase-same name cs k,
      λ other h.
          (find_child-insert-other name t other cs h, find_child-erase-other name other cs h),
    ),
  ),
)
