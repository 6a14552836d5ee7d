-- ===== src/FileActionBatch.antt =====
-- class FileActionBatch (src/efsw/FileActionBatch.cpp): the events of one notification cycle, and
-- their dispatch, which joins a deletion and a creation of the same file into a move.
pub mod ByIdentity
pub mod Alone
pub mod Meaning
pub mod Candidates
pub mod Passes
pub mod Moves
mod Tests
use efsw.Base.{
  ℕ, zero, suc, ◌-◌, ltb, ◌==◌, ℤ, Bool, true, false, not, ◌&&◌, ◌||◌, List, [], ◌∷◌, ◌++◌, Text,
  text_eq, length, get_elem?, get_or, take, if◌then◌else◌, Option, none, some,
}
use efsw.FileSystem.{os_slash, dir_add_slash_at_end, file_name_from_path, path_remove_file_name}
use efsw.FileInfo.{Os, FileInfo, same_inode, is_directory, is_regular_file}

-- Actions::Action
pub data Action : Type 0 where
  add : Action
  delete : Action
  modified : Action
  moved : Action

unfoldable pub is_add : Action → Bool
is_add add = true
is_add _ = false

unfoldable pub is_delete : Action → Bool
is_delete delete = true
is_delete _ = false

pub record Event : Type 0 where
  pub watch : ℤ
  pub directory : Text
  pub filename : Text
  pub action_type : Action
  pub old_filename : Text
  pub info : FileInfo

-- clear and add, on mEvents.
unfoldable pub clear : List Event → List Event
clear events = []

unfoldable pub add_event : List Event → Event → List Event
add_event events event = events ++ event ∷ []

-- The arguments of a call of `handleFileAction`.
pub record Call : Type 0 where
  pub watch : ℤ
  pub directory : Text
  pub filename : Text
  pub action : Action
  pub old_filename : Text

-- The call that reports an event as it is.
abbrev pub plain : Event → Call
plain e = record {
  watch = e.watch;
  directory = e.directory;
  filename = e.filename;
  action = e.action_type;
  old_filename = e.old_filename;
}

unfoldable pub metadata_matches : FileInfo → FileInfo → Bool
metadata_matches a b =
    a.modification_time == b.modification_time
    && (a.size == b.size
        && (a.owner_id == b.owner_id
            && (a.group_id == b.group_id
                && (a.permissions == b.permissions
                    && (bool_eq (is_directory a) (is_directory b)
                        && bool_eq (is_regular_file a) (is_regular_file b))))))
  where
    bool_eq : Bool → Bool → Bool
    bool_eq x y = if x then y else not y

unfoldable pub path_contains : Text → Text → Bool
path_contains directory path =
    if not (ltb 0 (length directory))
      || (not (ltb (length directory) (length path))
          || not (text_eq (take (length directory) path) directory))
    then false
    else get_or directory (length directory - 1) 0 == os_slash
      || get_or path (length directory) 0 == os_slash

-- FileSystem::getRealPath, which does not look at the result of `realpath`.
unfoldable pub get_real_path : Os → Text → Text
get_real_path os path = elim (os.realpath path) [ some p ↦ p | none ↦ os.unresolved path ]

unfoldable pub canonical_source_path : Os → Text → Text
unfolding get_real_path
canonical_source_path os path =
    let canonical_directory = get_real_path os (path_remove_file_name path) in
    elim canonical_directory [
      | [] ↦ path
      | b ∷ bs ↦ dir_add_slash_at_end (b ∷ bs) ++ file_name_from_path path
    ]

-- The two loops that fill and read `candidates`, a map from identities that is kept in order.
pub record Identity : Type 0 where
  pub device : ℕ
  pub inode : ℕ

abbrev pub identity_lt : Identity → Identity → Bool
identity_lt a b = ltb a.device b.device || (a.device == b.device && ltb a.inode b.inode)

pub record Entries : Type 0 where
  pub created : List ℕ
  pub deleted : List ℕ

abbrev pub push_back : Bool → ℕ → Entries → Entries
push_back true i e = record e { created = e.created ++ i ∷ [] }
push_back false i e = record e { deleted = e.deleted ++ i ∷ [] }

-- `candidates[identity]` with the index pushed to the created or the deleted ones.
unfoldable pub put_candidate :
    Identity → Bool → ℕ → List (Identity × Entries) → List (Identity × Entries)
put_candidate k created i [] = (k, push_back created i (record { created = []; deleted = [] })) ∷ []
put_candidate k created i ((l, e) ∷ rest) =
    let later = put_candidate k created i rest in
    if identity_lt l k
    then (l, e) ∷ later
    else if identity_lt k l
    then (k, push_back created i (record { created = []; deleted = [] })) ∷ (l, e) ∷ rest
    else (l, push_back created i e) ∷ rest

unfoldable pub collect : ℕ → List Event → List (Identity × Entries) → List (Identity × Entries)
unfolding put_candidate is_add is_delete
collect i [] candidates = candidates
collect i (event ∷ events) candidates = collect (suc i) events (
    if event.info.inode == 0
      || (not (is_add event.action_type) && not (is_delete event.action_type))
    then candidates
    else put_candidate (record { device = event.info.device; inode = event.info.inode })
        (is_add event.action_type) i candidates)

pub record Joined : Type 0 where
  pub suppressed : List Bool
  pub moves : List (ℕ × ℕ)

abbrev pub set_true : List Bool → ℕ → List Bool
set_true [] i = []
set_true (b ∷ bs) zero = true ∷ bs
set_true (b ∷ bs) (suc i) = b ∷ set_true bs i

-- Whether a deletion and a creation are the two halves of a move to another directory.
unfoldable pub is_move : Event → Event → Bool
unfolding metadata_matches
is_move source destination = not (
    text_eq source.directory destination.directory
    || (not (same_inode source.info destination.info)
        || ((is_regular_file source.info
              && (not (source.info.link_count == 1) || not (destination.info.link_count == 1)))
            || not (metadata_matches source.info destination.info))))

-- The loop that suppresses what happened inside a moved directory.
unfoldable pub suppress_inside : Event → Event → List Event → List Bool → List Bool
unfolding path_contains is_add is_delete
suppress_inside source destination [] suppressed = suppressed
suppress_inside source destination (event ∷ events) [] = []
suppress_inside source destination (event ∷ events) (b ∷ bs) =
    (if is_delete event.action_type && path_contains source.info.filepath event.info.filepath
      then true
      else if is_add event.action_type
          && path_contains destination.info.filepath event.info.filepath
      then true
      else b)
    ∷ suppress_inside source destination events bs

-- What the loop over the candidates does with a deletion and a creation that are a move.
abbrev pub record_move : List Event → Joined → ℕ → ℕ → Event → Event → Joined
record_move events s c d source destination =
    let s' : Joined = record {
      suppressed = set_true (set_true s.suppressed d) c;
      moves = (c, d) ∷ s.moves;
    } in
    if is_directory source.info
    then record s' { suppressed = suppress_inside source destination events s'.suppressed }
    else s'

-- The body of the loop over the candidates.
unfoldable pub join : List Event → Joined → Entries → Joined
unfolding is_move suppress_inside
join events s entries =
    let c = get_or entries.created 0 0 in
    let d = get_or entries.deleted 0 0 in
    if not (length entries.created == 1) || not (length entries.deleted == 1)
    then s
    else elim (get_elem? events d) [
      | none ↦ s
      | some source ↦ elim (get_elem? events c) [
        | none ↦ s
        | some destination ↦
            if is_move source destination then record_move events s c d source destination else s
      ]
    ]

unfoldable pub join_all : List Event → Joined → List (Identity × Entries) → Joined
unfolding join
join_all events s [] = s
join_all events s ((k, entries) ∷ rest) = join_all events (join events s entries) rest

abbrev pub none_suppressed : List Event → List Bool
none_suppressed [] = []
none_suppressed (e ∷ es) = false ∷ none_suppressed es

abbrev pub find_move : List (ℕ × ℕ) → ℕ → Option ℕ
find_move [] i = none
find_move ((c, d) ∷ moves) i = if c == i then some d else find_move moves i

-- The call that reports a move.
unfoldable pub move_call : Os → Event → Event → Call
unfolding canonical_source_path
move_call os source destination = record {
  watch = destination.watch;
  directory = destination.directory;
  filename = destination.filename;
  action = moved;
  old_filename = canonical_source_path os source.info.filepath;
}

-- The last loop, from index `i` on.
unfoldable pub emit : Os → List Event → List (ℕ × ℕ) → ℕ → List Event → List Bool → List Call
unfolding move_call
emit os all moves i [] suppressed = []
emit os all moves i (event ∷ events) [] = []
emit os all moves i (event ∷ events) (b ∷ bs) =
    let rest = emit os all moves (suc i) events bs in
    elim (find_move moves i) [
      | some d ↦ elim (get_elem? all d) [
        | some source ↦ move_call os source event ∷ rest
        | none ↦ rest
      ]
      | none ↦ if b then rest else plain event ∷ rest
    ]

abbrev pub plain_all : List Event → List Call
plain_all [] = []
plain_all (e ∷ es) = plain e ∷ plain_all es

-- The calls that `dispatch` makes, and the events that it leaves.
unfoldable pub dispatch : Os → Bool → Bool → List Event → List Call × List Event
unfolding collect join_all emit
dispatch os has_listener detect_moves events =
    let s =
      join_all events (record { suppressed = none_suppressed events; moves = [] })
        (collect 0 events []) in
    if not has_listener
    then ([], [])
    else if not detect_moves
    then (plain_all events, [])
    else (emit os events s.moves 0 events s.suppressed, [])
