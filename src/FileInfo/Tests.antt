-- ===== src/FileInfo/Tests.antt =====
-- The theorem about listings at a concrete directory, which is read in reverse order.
use efsw.Base.{refl, false, ◌∷◌, [], text_eq, codes, none, some, arith}
use mathlib.Core.Option.{some-injective}
use efsw.Base.{subst}
use efsw.FileInfo.{Os}
use efsw.FileInfo.Listing.{files_info_from_path}
use efsw.FileInfo.Sorting.{Sorted}
use efsw.FileInfo.Laws.{AreNames, ListsNames, files_info_from_path-Sorted}

abbrev two_files : Os
two_files = record {
  stat = λ path. none;
  lstat = λ path. none;
  names = λ path. some (codes "b" ∷ codes "a" ∷ []);
  realpath = λ path. none;
  unresolved = λ path. [];
  is_remote = λ path. false;
  is_root = false;
  uninitialised = 0;
}

two_names : AreNames (codes "b" ∷ codes "a" ∷ [])
unfolding text_eq
two_names = (
  λ e. cc e,
  (λ e. absurd (omega (arith, e)), tt),
  (refl, tt),
  (λ e. cc e, (λ e. absurd (omega (arith, e)), tt), tt, tt),
)

two_files-ListsNames : ListsNames two_files
two_files-ListsNames path ns e = subst AreNames (some-injective _ _ e) two_names

files_info_from_path-Sorted_example : Sorted (files_info_from_path two_files (codes "/d"))
files_info_from_path-Sorted_example =
    files_info_from_path-Sorted two_files (codes "/d") two_files-ListsNames
