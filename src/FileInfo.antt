-- ===== src/FileInfo.antt =====
-- class FileInfo (src/efsw/FileInfo.hpp, FileInfo.cpp) on POSIX. The operating system is the
-- record `Os` of the calls that the code makes.
pub mod Listing
pub mod Sorting
pub mod Laws
mod Tests
use efsw.Base.{
  ℕ, ◌/◌, ◌%◌, ◌^◌, Bool, true, false, not, ◌&&◌, ◌||◌, List, [], Text, ◌==◌, if◌then◌else◌, Option,
  none, some,
}
use efsw.FileSystem.{
  slash_at_end, dir_add_slash_at_end, dir_remove_slash_at_end, path_remove_file_name,
}

-- struct stat
pub record Stat : Type 0 where
  pub mtime : ℕ
  pub size : ℕ
  pub uid : ℕ
  pub gid : ℕ
  pub mode : ℕ
  pub dev : ℕ
  pub ino : ℕ
  pub nlink : ℕ

-- The calls of the operating system, as functions of a path. `none` is a failure. `names` is what
-- `readdir` returns for a directory that `opendir` opens, `unresolved` is what a failing `realpath`
-- leaves in its buffer, `is_root` is `getuid() == 0`, and `uninitialised` is the value that a
-- `Uint64` has before anything is stored in it.
pub record Os : Type 0 where
  pub stat : Text → Option Stat
  pub lstat : Text → Option Stat
  pub names : Text → Option (List Text)
  pub realpath : Text → Option Text
  pub unresolved : Text → Text
  pub is_remote : Text → Bool
  pub is_root : Bool
  pub uninitialised : ℕ

pub record FileInfo : Type 0 where
  pub filepath : Text
  pub modification_time : ℕ
  pub size : ℕ
  pub owner_id : ℕ
  pub group_id : ℕ
  pub permissions : ℕ
  pub device : ℕ
  pub inode : ℕ
  pub link_count : ℕ

-- The path that is handed to `stat`, and the path that is put back afterwards.
unfoldable pub stat_path : Text → Text
stat_path filepath = if slash_at_end filepath then dir_remove_slash_at_end filepath else filepath

unfoldable pub restored_path : Text → Text
unfolding stat_path
restored_path filepath =
    if slash_at_end filepath then dir_add_slash_at_end (stat_path filepath) else stat_path filepath

-- The common body of `getInfo` and `getRealInfo`, which call `stat` and `lstat`.
unfoldable pub fill : (Text → Option Stat) → FileInfo → FileInfo
unfolding stat_path restored_path
fill call fi = elim (call (stat_path fi.filepath)) [
  | some st ↦ record {
    filepath = restored_path fi.filepath;
    modification_time = st.mtime;
    size = st.size;
    owner_id = st.uid;
    group_id = st.gid;
    permissions = st.mode;
    device = st.dev;
    inode = st.ino;
    link_count = st.nlink;
  }
  | none ↦ record fi { filepath = restored_path fi.filepath }
]

unfoldable pub get_info : Os → FileInfo → FileInfo
unfolding fill
get_info os fi = fill os.stat fi

unfoldable pub get_real_info : Os → FileInfo → FileInfo
unfolding fill
get_real_info os fi = fill os.lstat fi

-- FileInfo::FileInfo()
abbrev pub blank : FileInfo
blank = record {
  filepath = [];
  modification_time = 0;
  size = 0;
  owner_id = 0;
  group_id = 0;
  permissions = 0;
  device = 0;
  inode = 0;
  link_count = 0;
}

-- The initialisers of the other constructors, which leave Size out.
abbrev pub unset : Os → Text → FileInfo
unset os filepath = record blank { filepath = filepath; size = os.uninitialised }

-- FileInfo::FileInfo( filepath )
unfoldable pub file_info : Os → Text → FileInfo
unfolding get_info
file_info os filepath = get_info os (unset os filepath)

-- FileInfo::FileInfo( filepath, linkInfo )
unfoldable pub file_info_link : Os → Text → Bool → FileInfo
unfolding get_info get_real_info
file_info_link os filepath link_info =
    if link_info then get_real_info os (unset os filepath) else get_info os (unset os filepath)

-- operator==
unfoldable pub info_eq : FileInfo → FileInfo → Bool
info_eq a b =
    a.modification_time == b.modification_time
    && (a.size == b.size
        && (a.owner_id == b.owner_id
            && (a.group_id == b.group_id
                && (a.permissions == b.permissions
                    && (a.device == b.device && a.inode == b.inode)))))

-- operator!=
unfoldable pub info_ne : FileInfo → FileInfo → Bool
unfolding info_eq
info_ne a b = not (info_eq a b)

-- S_ISDIR, S_ISREG, S_ISLNK: the file type in the upper bits of st_mode.
unfoldable pub is_directory : FileInfo → Bool
is_directory fi = fi.permissions / 2 ^ 12 % 2 ^ 4 == 4

unfoldable pub is_regular_file : FileInfo → Bool
is_regular_file fi = fi.permissions / 2 ^ 12 % 2 ^ 4 == 8

unfoldable pub is_link : FileInfo → Bool
is_link fi = fi.permissions / 2 ^ 12 % 2 ^ 4 == 10

-- S_IRUSR
unfoldable pub is_readable : Os → FileInfo → Bool
is_readable os fi = os.is_root || fi.permissions / 2 ^ 8 % 2 == 1

unfoldable pub same_inode : FileInfo → FileInfo → Bool
same_inode a b = not (a.inode == 0) && (a.device == b.device && a.inode == b.inode)

unfoldable pub links_to : Os → FileInfo → Text
unfolding is_link
links_to os fi =
    if is_link fi then elim (os.realpath fi.filepath) [ some path ↦ path | none ↦ [] ] else []

-- The answer, and the object, whose path has lost its separator and got it back.
unfoldable pub exists : Os → FileInfo → Bool × FileInfo
unfolding stat_path restored_path
exists os fi =
    let fi' : FileInfo = record fi { filepath = restored_path fi.filepath } in
    (elim (os.stat (stat_path fi.filepath)) [ some _ ↦ true | none ↦ false ], fi')

-- FileSystem::getLinkRealPath, with the value of `curPath` if it is set.
unfoldable pub get_link_real_path : Os → Text → Text × Option Text
unfolding file_info_link is_link links_to
get_link_real_path os dir =
    let dir' = dir_remove_slash_at_end dir in
    let fi = file_info_link os dir' true in
    if is_link fi
    then (dir_add_slash_at_end (links_to os fi), some (path_remove_file_name dir'))
    else ([], none)

-- The static members, and Platform::FileSystem::isDirectory.
unfoldable pub exists_path : Os → Text → Bool
unfolding file_info exists
exists_path os path = (exists os (file_info os path)).0

unfoldable pub is_link_path : Os → Text → Bool
unfolding file_info_link is_link
is_link_path os path = is_link (file_info_link os path true)

abbrev pub inode_supported : Bool
inode_supported = true

unfoldable pub is_directory_path : Os → Text → Bool
is_directory_path os path = elim (os.stat path) [
  | some st ↦ st.mode / 2 ^ 12 % 2 ^ 4 == 4
  | none ↦ false
]
