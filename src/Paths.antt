-- ===== src/Paths.antt =====
-- src/utils/path.ts, and the extension test of src/sync/merge.ts. `toLowerCase` is the parameter
-- `lower`.
pub mod Prefix
mod Tests
use Prim.Native.Nat.{◌%◌}
use obsidian_air_sync.Prelude.{
  ℕ, zero, suc, ◌+◌, ◌/◌, ◌*◌, Bool, true, false, not, ◌||◌, ◌&&◌, Option, none, some, List, [],
  ◌∷◌, ◌++◌, any, leb, ltb, ◌==◌, nat_eq, contains, drop, take, map, if◌then◌else◌,
}
use obsidian_air_sync.Prelude.Text.{Str, str_eq, codes}

-- `s.lastIndexOf(c)` for one code unit; `none` is -1.
pub last_index_of : ℕ → Str → Option ℕ
last_index_of c [] = none
last_index_of c (d ∷ s) = elim (last_index_of c s) [
  | some i ↦ some (suc i)
  | none ↦ if d == c then some 0 else none
]

-- `i <= path.lastIndexOf("/")`
abbrev not_after : ℕ → Option ℕ → Bool
not_after i none = false
not_after i (some j) = leb i j

-- Where the extension begins: the last dot, if no slash follows it.
pub extension_at : Str → Option ℕ
unfolding last_index_of
extension_at path = elim (last_index_of b'.' path) [
  | none ↦ none
  | some dot ↦ if not_after dot (last_index_of b'/' path) then none else some dot
]

pub get_file_extension : (Str → Str) → Str → Str
unfolding extension_at
get_file_extension lower path = elim (extension_at path) [
  | none ↦ []
  | some dot ↦ lower (drop dot path)
]

-- `insertConflictSuffix`, with the suffix already composed.
insert_suffix : Str → Str → Str
unfolding extension_at
insert_suffix path suffix = elim (extension_at path) [
  | none ↦ path ++ suffix
  | some dot ↦ take dot path ++ (suffix ++ drop dot path)
]

-- The digits of a number, the least last; a number below 10^21 is printed without an exponent.
decimal_onto : ℕ → ℕ → Str → Str
decimal_onto zero n digits = digits
decimal_onto (suc fuel) n digits =
    if ltb n 10 then (b'0' + n) ∷ digits else decimal_onto fuel (n / 10) ((b'0' + n % 10) ∷ digits)

decimal : ℕ → Str
unfolding decimal_onto
decimal n = decimal_onto 21 n []

pub data Sequence : Type 0 where
  number : ℕ → Sequence
  label : Str → Sequence

conflict_suffix : Sequence → Str
unfolding decimal
conflict_suffix (number n) = if n == 1 then codes ".conflict" else codes ".conflict-" ++ decimal n
conflict_suffix (label text) = codes ".conflict-" ++ text

unfoldable pub insert_conflict_suffix : Str → Sequence → Str
unfolding insert_suffix conflict_suffix
insert_conflict_suffix path seq = insert_suffix path (conflict_suffix seq)

-- `s.startsWith(prefix)`
pub starts_with : Str → Str → Bool
starts_with s [] = true
starts_with [] (c ∷ prefix) = false
starts_with (d ∷ s) (c ∷ prefix) = d == c && starts_with s prefix

-- `s.includes("/.")`
has_dot_segment : Str → Bool
has_dot_segment [] = false
has_dot_segment (c ∷ s) = (c == b'/' && starts_with s (codes ".")) || has_dot_segment s

pub is_dot_prefixed : Str → Bool
unfolding starts_with has_dot_segment
is_dot_prefixed path = starts_with path (codes ".") || has_dot_segment path

-- `root.replace(/\/+$/, "")`
trim_slashes : Str → Str
trim_slashes [] = []
trim_slashes (c ∷ s) = elim (trim_slashes s) [
  | [] ↦ if c == b'/' then [] else c ∷ []
  | d ∷ t ↦ c ∷ d ∷ t
]

pub is_dot_path_out_of_scope : Str → List Str → Bool
unfolding is_dot_prefixed trim_slashes
is_dot_path_out_of_scope path roots =
    is_dot_prefixed path
    && not (
        any (λ root. path == trim_slashes root || starts_with path (trim_slashes root ++ codes "/"))
          roots)

pub data RenameError : Type 0 where
  to_itself into_own_subtree : RenameError

-- `validateRename`: `none` where it does not throw.
pub validate_rename : Str → Str → Option RenameError
unfolding starts_with
validate_rename old_path new_path =
    if old_path == new_path
    then some to_itself
    else if starts_with new_path (old_path ++ codes "/")
    then some into_own_subtree
    else none

abbrev text_extensions : List Str
text_extensions = map codes (
    ".md" ∷ ".txt" ∷ ".json" ∷ ".canvas" ∷ ".css" ∷ ".js" ∷ ".ts" ∷ ".html" ∷ ".xml" ∷ ".yaml"
    ∷ ".yml" ∷ ".csv" ∷ ".svg" ∷ ".tex" ∷ ".bib" ∷ ".org" ∷ ".rst" ∷ ".adoc" ∷ ".toml" ∷ ".ini"
    ∷ ".cfg" ∷ ".conf" ∷ ".log" ∷ ".sh" ∷ ".bash" ∷ ".zsh" ∷ ".fish" ∷ ".py" ∷ ".rb" ∷ ".lua"
    ∷ ".sql" ∷ ".graphql" ∷ ".env" ∷ ".gitignore" ∷ [])

abbrev max_merge_size : ℕ
max_merge_size = 1024 * 1024

pub is_merge_eligible : (Str → Str) → Str → ℕ → Bool
unfolding get_file_extension
is_merge_eligible lower path size =
    if ltb max_merge_size size
    then false
    else contains text_extensions (get_file_extension lower path)
