-- ===== src/Cgroup/Proc.antt =====
-- The membership file of a process: internal/cgroup/proc.go, and `parseProcCgroup` of cgroup.go.
pub mod Lines
use microfat.Base.{
  ℕ, zero, suc, ◌+◌, Bool, true, false, not, ◌&&◌, ◌||◌, Option, none, some, List, [], ◌∷◌, ◌++◌,
  ◌==◌, length, take, drop, if◌then◌else◌, ltb,
}
use microfat.Text.{index_byte, Bytes, codes, bytes_eq, is_empty, has_prefix, trim_space}
use microfat.Result.{Result, ok, err, panic}
use microfat.Cgroup.Paths.{Files, CgroupError, proc_unreadable}

-- The number of bytes to advance, and the token where there is one.
unfoldable pub scan_proc_cgroup_line : Bytes → Bool → ℕ × Option Bytes
scan_proc_cgroup_line bytes at_eof = elim (index_byte bytes b'\n') [
  | some newline ↦ (suc newline, some (take newline bytes))
  | none ↦ if at_eof && not (is_empty bytes) then (length bytes, some bytes) else (0, none)
]

-- The scanner on the whole of a file: it calls the function until there is no token. A token takes a byte or
-- more, so that the number of bytes is fuel enough.
unfoldable pub scan_lines : ℕ → Bytes → List Bytes
scan_lines zero bytes = []
scan_lines (suc fuel) bytes =
    let (advance, token) = scan_proc_cgroup_line bytes true in
    let rest = scan_lines fuel (drop advance bytes) in
    elim token [ none ↦ [] | some line ↦ line ∷ rest ]

abbrev pub lines_of : Bytes → List Bytes
lines_of bytes = scan_lines (length bytes) bytes

-- What is in front of the first `c`, and what is behind it.
unfoldable pub cut : ℕ → Bytes → Option (Bytes × Bytes)
cut c s = elim (index_byte s c) [ none ↦ none | some i ↦ some (take i s, drop (suc i) s) ]

-- `strings.Split`, on a text and what was read of its next part.
unfoldable pub split_onto : ℕ → Bytes → Bytes → List Bytes
split_onto c part [] = part ∷ []
split_onto c part (b ∷ s) =
    let next = split_onto c [] s in
    let more = split_onto c (part ++ (b ∷ [])) s in if b == c then part ∷ next else more

-- `v2Path`, `hasV2`, `v1Paths` and `hasEntries`; the newest entry of the map is in front.
pub record Membership : Type 0 where
  pub v2_path : Bytes
  pub has_v2 : Bool
  pub v1_paths : List (Bytes × Bytes)
  pub has_entries : Bool

unfoldable pub add_controllers : Bytes → List Bytes → List (Bytes × Bytes) → List (Bytes × Bytes)
add_controllers rel_path [] paths = paths
add_controllers rel_path (ctrl ∷ ctrls) paths =
    let trimmed = trim_space ctrl in
    let kept = add_controllers rel_path ctrls paths in
    let added = add_controllers rel_path ctrls ((trimmed, rel_path) ∷ paths) in
    if is_empty trimmed then kept else added

-- The three parts of a line, where it has two colons.
unfoldable pub split_entry : Bytes → Option (Bytes × Bytes × Bytes)
split_entry line = elim (cut b':' line) [
  | none ↦ none
  | some (id, rest) ↦ elim (cut b':' rest) [
    | none ↦ none
    | some (controllers, path) ↦ some (id, controllers, path)
  ]
]

unfoldable pub add_entry : Bytes × Bytes × Bytes → Membership → Membership
add_entry (id, controllers, rel_path) m =
    if bytes_eq (trim_space id) (codes "0") && is_empty (trim_space controllers)
    then record m { v2_path = rel_path; has_v2 = true; has_entries = true }
    else record m {
      v1_paths = add_controllers rel_path (split_onto b',' [] (trim_space controllers)) m.v1_paths;
      has_entries = true;
    }

-- One line: blank lines, comments and lines without two colons are passed over.
unfoldable pub add_line : Bytes → Membership → Membership
add_line line m =
    if is_empty (trim_space line) || has_prefix (trim_space line) (codes "#")
    then m
    else elim (split_entry line) [ none ↦ m | some entry ↦ add_entry entry m ]

unfoldable pub add_lines : List Bytes → Membership → Membership
add_lines [] m = m
add_lines (line ∷ lines) m = add_lines lines (add_line line m)

abbrev pub no_membership : Membership
no_membership = record { v2_path = []; has_v2 = false; v1_paths = []; has_entries = false }

abbrev pub default_proc_self_cgroup : Bytes
default_proc_self_cgroup = codes "/proc/self/cgroup"

abbrev checked : Membership → Result CgroupError Membership
checked m = if m.has_entries then ok m else err proc_unreadable

unfoldable pub parse_proc_cgroup : Files → Bytes → Result CgroupError Membership
parse_proc_cgroup fs proc_path =
    let target = if is_empty proc_path then default_proc_self_cgroup else proc_path in
    elim (fs.read (fs.clean target)) [
      | ok bytes ↦ checked (add_lines (lines_of bytes) no_membership)
      | err e ↦ err proc_unreadable
      | panic ↦ panic
    ]
