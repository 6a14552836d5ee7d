-- ===== src/FileActionBatch/Meaning.antt =====
-- What the tests of FileActionBatch::dispatch mean: those for the two halves of a move, and the one
-- for a path inside a directory.
use mathlib.Core.Logic.{◌≢◌, ◌⊎◌, inl, inr}
use efsw.Base.{
  ℕ, zero, suc, ◌-◌, ◌<◌, ◌==◌, ==_iff, ◌≡◌, refl, sym, ap, ◌∙◌, true, [], ◌∷◌, ◌++◌, Text,
  text_eq_iff, length, length-append, get_or, take, drop, take-append-drop, get_or-drop, Bool-cases,
  arith,
}
use efsw.FileSystem.{os_slash}
use efsw.FileInfo.{same_inode, is_regular_file}
use efsw.FileActionBatch.{
  Action, add, delete, modified, moved, Event, is_add, is_delete, metadata_matches, path_contains,
  is_move,
}

pub is_add_lem : (k : Action) → is_add k ≡ true → k ≡ add
unfolding is_add
is_add_lem add h = refl
is_add_lem delete h = absurd (cc h)
is_add_lem modified h = absurd (cc h)
is_add_lem moved h = absurd (cc h)

pub is_delete_lem : (k : Action) → is_delete k ≡ true → k ≡ delete
unfolding is_delete
is_delete_lem add h = absurd (cc h)
is_delete_lem delete h = refl
is_delete_lem modified h = absurd (cc h)
is_delete_lem moved h = absurd (cc h)

-- The two halves of a move: in two directories, with one non-zero inode on one device, the same
-- metadata, and a single link each if the source is a regular file.
pub record AreHalves (source destination : Event) : Type 0 where
  pub apart : source.directory ≢ destination.directory
  pub has_inode : source.info.inode ≢ 0
  pub inode : source.info.inode ≡ destination.info.inode
  pub device : source.info.device ≡ destination.info.device
  pub source_links : is_regular_file source.info ≡ true → source.info.link_count ≡ 1
  pub destination_links : is_regular_file source.info ≡ true → destination.info.link_count ≡ 1
  pub modification_time : source.info.modification_time ≡ destination.info.modification_time
  pub size : source.info.size ≡ destination.info.size
  pub owner_id : source.info.owner_id ≡ destination.info.owner_id
  pub group_id : source.info.group_id ≡ destination.info.group_id
  pub permissions : source.info.permissions ≡ destination.info.permissions

module _ (source destination : Event) (h : is_move source destination ≡ true) where
  pub is_move-AreHalves : AreHalves source destination
  unfolding is_move same_inode metadata_matches
  is_move-AreHalves = record {
    apart = λ e. ground (arith, h, (text_eq_iff source.directory destination.directory).1 e);
    has_inode = λ e. ground (arith, h, e);
    inode = ground (arith, h);
    device = ground (arith, h);
    source_links = λ r. ground (arith, h, r);
    destination_links = λ r. ground (arith, h, r);
    modification_time = ground (arith, h);
    size = ground (arith, h);
    owner_id = ground (arith, h);
    group_id = ground (arith, h);
    permissions = ground (arith, h);
  }

-- The path of something inside a directory: the directory, a separator, which may be the last byte
-- of the directory's own path, and something behind it.
pub record IsInside (directory path : Text) : Type 0 where
  pub rest : Text
  pub splits : path ≡ directory ++ rest
  pub proper : rest ≢ []
  pub named : directory ≢ []
  pub separated :
      ((before : Text) × (directory ≡ before ++ os_slash ∷ []))
      ⊎ ((after : Text) × (rest ≡ os_slash ∷ after))

last-get_or :
    (xs : Text) (i c : ℕ)
    → length xs ≡ suc i
    → get_or xs i 0 ≡ c
    → (before : Text) × (xs ≡ before ++ c ∷ [])
last-get_or [] i c n h = absurd (omega arith)
last-get_or (x ∷ []) zero c n h = ([], ap (λ b. b ∷ []) h)
last-get_or (x ∷ []) (suc i) c n h = absurd (omega arith)
last-get_or (x ∷ y ∷ xs) zero c n h = absurd (omega arith)
last-get_or (x ∷ y ∷ xs) (suc i) c n h =
    let (before, e) = last-get_or (y ∷ xs) i c (omega arith) h in (x ∷ before, ap (◌∷◌ x) e)

first-get_or : (xs : Text) (c : ℕ) → xs ≢ [] → get_or xs 0 0 ≡ c → (after : Text) × (xs ≡ c ∷ after)
first-get_or [] c n h = absurd (n refl)
first-get_or (x ∷ xs) c n h = (xs, ap (λ b. b ∷ xs) h)

pub path_contains-IsInside :
    (directory path : Text) → path_contains directory path ≡ true → IsInside directory path
unfolding path_contains
path_contains-IsInside directory path h = record {
  rest = rest;
  splits = splits;
  proper = proper;
  named = named;
  separated = elim (Bool-cases (get_or directory (length directory - 1) 0 == os_slash)) [
    | inl k ↦ inl (
        last-get_or directory (length directory - 1) os_slash (ground (arith, h))
          ((==_iff _ _).0 k))
    | inr k ↦ inr (
        first-get_or rest os_slash proper (
          get_or-drop (length directory) 0 (length directory) path 0 (omega arith)
          ∙ ground (arith, h, k)))
  ];
}
  where
    rest : Text
    rest = drop (length directory) path

    begins : take (length directory) path ≡ directory
    begins = (text_eq_iff _ _).0 (ground (arith, h))

    splits : path ≡ directory ++ rest
    splits = sym (take-append-drop (length directory) path) ∙ ap (λ t. t ++ rest) begins

    named : directory ≢ []
    named e = ground (arith, h, ap length e)

    longer : length directory < length path
    longer = ground (arith, h)

    proper : rest ≢ []
    proper e = omega (arith, longer, length-append directory rest, ap length splits, ap length e)
