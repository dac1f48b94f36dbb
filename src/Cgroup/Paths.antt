-- ===== src/Cgroup/Paths.antt =====
-- The files that internal/cgroup/cgroup.go reads, and its functions on paths. The file system and package
-- path/filepath are parameters.
use microfat.Base.{
  Bool, true, false, not, ◌||◌, Option, none, some, [], ◌∷◌, ◌++◌, ◌==◌, if◌then◌else◌,
}
use microfat.Text.{Bytes, codes, bytes_eq, is_empty, has_prefix, trim_space}
use microfat.Result.{Result, ok, err, ◌>>=◌}

-- A file that does not exist, or another failure.
pub data FileError : Type 0 where
  not_exist other_failure : FileError

-- `read` is the bytes that a scanner gets from a file, `stat` the error of `os.Stat`.
pub record Files : Type 0 where
  pub read : Bytes → Result FileError Bytes
  pub stat : Bytes → Option FileError
  pub clean : Bytes → Bytes
  pub join : Bytes → Bytes → Bytes
  pub dir : Bytes → Bytes

pub data CgroupError : Type 0 where
  mount_inaccessible proc_unreadable hierarchy_not_found limit_corrupted : CgroupError

abbrev pub exists : Files → Bytes → Bool
exists fs path = elim (fs.stat path) [ none ↦ true | some e ↦ false ]

unfoldable pub is_subpath : Bytes → Bytes → Bool
is_subpath root path =
    bytes_eq root path || bytes_eq root (codes "/") || has_prefix path (root ++ codes "/")

unfoldable pub resolve_target_directory : Files → Bytes → Bytes → Result CgroupError Bytes
resolve_target_directory fs base_dir rel_path =
    let candidate = fs.join base_dir (fs.clean (codes "/" ++ rel_path)) in
    if is_empty rel_path
    then err hierarchy_not_found
    else if bytes_eq rel_path (codes "/") || bytes_eq rel_path (codes ".")
    then ok base_dir
    else if not (is_subpath base_dir candidate)
    then err hierarchy_not_found
    else if exists fs candidate
    then ok candidate
    else err hierarchy_not_found

-- The bytes up to the first newline: what the scanner returns first, but for a carriage return at the end.
unfoldable pub first_line : Bytes → Bytes
first_line [] = []
first_line (c ∷ s) = let rest = first_line s in if c == b'\n' then [] else c ∷ rest

abbrev trimmed_line : Bytes → Result FileError Bytes
trimmed_line [] = err other_failure
trimmed_line (c ∷ s) = ok (trim_space (first_line (c ∷ s)))

unfoldable pub read_trimmed_file : Files → Bytes → Result FileError Bytes
read_trimmed_file fs path = fs.read (fs.clean path) >>= trimmed_line
