-- ===== src/Git.antt =====
-- pkg/git/operations.go and working.go: the git commands that the agent runs, and what it reads from their
-- output. A run of git is a parameter, which changes the world. Child modules have the state of a repository
-- (repo.go) and what is proved.
pub mod Commands
pub mod Repository
pub mod Working
pub mod Lines
pub mod Starting
pub mod Readiness
mod Tests
use choerodon_cluster_agent.Base.{
  ℕ, Bool, true, false, ◌||◌, ◌&&◌, Option, none, some, List, [], ◌∷◌, ◌++◌, leb, ◌==◌, nat_eq,
  list_eq, if◌then◌else◌, length,
}
use choerodon_cluster_agent.Base.Text.{Text, codes, has_prefix}

-- White space, in ASCII.
unfoldable pub is_space : ℕ → Bool
is_space c = c == b' ' || leb 9 c && leb c 13

-- `strings.TrimSpace`, from the left and from the right.
unfoldable pub trim_left : Text → Text
trim_left [] = []
trim_left (c ∷ s) = let rest = trim_left s in if is_space c then rest else c ∷ s

abbrev cons_unless : Bool → ℕ → Text → Text
cons_unless space c [] = if space then [] else c ∷ []
cons_unless space c (d ∷ s) = c ∷ d ∷ s

unfoldable pub trim_right : Text → Text
trim_right [] = []
trim_right (c ∷ s) = cons_unless (is_space c) c (trim_right s)

unfoldable pub trim_space : Text → Text
trim_space s = trim_right (trim_left s)

-- `strings.Split` at a byte.
abbrev pub cons_head : ℕ → List Text → List Text
cons_head c [] = (c ∷ []) ∷ []
cons_head c (l ∷ ls) = (c ∷ l) ∷ ls

unfoldable pub split_on : ℕ → Text → List Text
split_on b [] = [] ∷ []
split_on b (c ∷ s) = let rest = split_on b s in if c == b then [] ∷ rest else cons_head c rest

-- `splitList`
unfoldable pub split_list : Text → List Text
split_list s = elim (trim_space s) [ [] ↦ [] | c ∷ t ↦ split_on 10 (c ∷ t) ]

-- `strings.SplitN(m, " ", 2)`: what is in front of the first space, and what is behind it, if there is
-- one.
unfoldable pub split_first_space : Text → Text × Option Text
split_first_space [] = ([], none)
split_first_space (c ∷ s) =
    let rest = split_first_space s in if c == b' ' then ([], some s) else (c ∷ rest.0, rest.1)

-- `Commit`
pub record Commit : Type 0 where
  pub revision : Text
  pub message : Text

-- The loop of `splitLog`; `none` is the index out of range on a line without a space.
unfoldable pub split_log_lines : List Text → Option (List Commit)
split_log_lines [] = some []
split_log_lines (m ∷ lines) =
    let rest = split_log_lines lines in
    let parts = split_first_space m in
    elim parts.1 [
      | none ↦ none
      | some message ↦ elim rest [
        | none ↦ none
        | some commits ↦ some (record { revision = parts.0; message = message } ∷ commits)
      ]
    ]

-- `splitLog`
unfoldable pub split_log : Text → Option (List Commit)
split_log s = split_log_lines (split_list s)

-- `strings.Fields`: the words between white space.
abbrev word_head : ℕ → Bool → List Text → List Text
word_head c true ws = (c ∷ []) ∷ ws
word_head c false ws = cons_head c ws

unfoldable pub starts_with_space : Text → Bool
starts_with_space [] = true
starts_with_space (c ∷ s) = is_space c

unfoldable pub fields : Text → List Text
fields [] = []
fields (c ∷ s) =
    let rest = fields s in if is_space c then rest else word_head c (starts_with_space s) rest

-- The loop of `noteRevList` over the lines of the list, for a map as the list of its keys; `none` is the
-- index out of range on a line of one word.
unfoldable pub note_revisions : List Text → Option (List Text)
note_revisions [] = some []
note_revisions (l ∷ ls) =
    let rest = note_revisions ls in
    elim (fields l) [
      | [] ↦ rest
      | note ∷ [] ↦ none
      | note ∷ rev ∷ more ↦ elim rest [ none ↦ none | some revs ↦ some (rev ∷ revs) ]
    ]

-- The lines that a `bufio.Scanner` reads: without the line end and a carriage return before it, and up to
-- the first line that does not fit its buffer.
unfoldable pub drop_return : Text → Text
drop_return [] = []
drop_return (c ∷ []) = if c == 13 then [] else c ∷ []
drop_return (c ∷ d ∷ s) = c ∷ drop_return (d ∷ s)

unfoldable pub scanned_lines : List Text → List Text
scanned_lines [] = []
scanned_lines ([] ∷ []) = []
scanned_lines (l ∷ ls) =
    let rest = scanned_lines ls in if leb 65536 (length l) then [] else drop_return l ∷ rest

-- `strings.Trim(s, "error: ")`: it takes a set of characters.
unfoldable pub in_cutset : ℕ → Bool
in_cutset c = c == b'e' || c == b'r' || c == b'o' || c == b':' || c == b' '

unfoldable pub trim_left_error : Text → Text
trim_left_error [] = []
trim_left_error (c ∷ s) = let rest = trim_left_error s in if in_cutset c then rest else c ∷ s

unfoldable pub trim_right_error : Text → Text
trim_right_error [] = []
trim_right_error (c ∷ s) = cons_unless (in_cutset c) c (trim_right_error s)

-- The loop of `findErrorMessage`.
unfoldable pub first_error : List Text → Text
first_error [] = []
first_error (l ∷ ls) =
    let rest = first_error ls in
    if has_prefix l (codes "fatal: ")
    then l
    else if has_prefix l (codes "ERROR fatal: ")
    then l
    else if has_prefix l (codes "error:")
    then trim_right_error (trim_left_error l)
    else rest

-- `findErrorMessage`
unfoldable pub find_error_message : Text → Text
find_error_message s = first_error (scanned_lines (split_on 10 s))

-- A run of the git program: its two outputs, its error, and the error of the context, if it is over.
pub record Ran : Type 0 where
  pub output : Text
  pub errors : Text
  pub failed : Option Text
  pub context_error : Option Text

-- The error of `execGitCmd`. That of a context that is over stands for the wrapped one, and wins.
unfoldable pub error_of : Ran → Option Text
error_of r = elim r.context_error [
  | some e ↦ some e
  | none ↦ elim r.failed [
    | none ↦ none
    | some e ↦ elim (find_error_message r.errors) [ [] ↦ some e | c ∷ msg ↦ some (c ∷ msg) ]
  ]
]
