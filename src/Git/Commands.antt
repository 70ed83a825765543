-- ===== src/Git/Commands.antt =====
-- pkg/git/operations.go and working.go: the commands that the checkouts of a repository run, by the
-- arguments of git, and what they make of its output and of its errors.
use choerodon_cluster_agent.Base.{
  Bool, true, false, Option, none, some, List, [], ◌∷◌, ◌++◌, ◌==◌, nat_eq, list_eq, if◌then◌else◌,
}
use choerodon_cluster_agent.Base.Text.{Text, codes, contains_text}
use choerodon_cluster_agent.Git.{
  Commit, Ran, error_of, trim_space, split_list, split_log, note_revisions,
}

-- What an operation returns: a value or an error. Where the value is an option, none is a panic.
pub data Outcome (A : Type 0) : Type 0 where
  returns : A → Outcome A
  fails : Text → Outcome A

-- `errors.Wrap`
abbrev pub wrap : Text → Text → Text
wrap message e = message ++ codes ": " ++ e

abbrev check_push_tag : Text
check_push_tag = codes "choerodon-write-check"

module _ {W : Type 0} (git : Text → List Text → W → W × Ran) where
  -- A command of which only the error is read, with the message that wraps the error.
  unfoldable pub run : Text → List Text → (Text → Text) → W → W × Outcome Unit
  run dir args wrapped w =
      let r = git dir args w in
      (r.0, elim (error_of r.1) [ none ↦ returns tt | some e ↦ fails (wrapped e) ])

  -- A command whose output is read.
  unfoldable pub read : {A : Type 0} → Text → List Text → (Text → Outcome A) → W → W × Outcome A
  read dir args parse w =
      let r = git dir args w in
      (r.0, elim (error_of r.1) [ none ↦ parse r.1.output | some e ↦ fails e ])

  -- One command after another, which is not run if the first has an error.
  unfoldable pub and_then :
      {A : Type 0} → (W → W × Outcome Unit) → (W → W × Outcome A) → W → W × Outcome A
  and_then first second w =
      let r = first w in elim r.1 [ returns u ↦ second r.0 | fails e ↦ (r.0, fails e) ]

  -- `mirror` and `clone`: the directory that they are given.
  unfoldable pub mirror : Text → Text → W → W × Outcome Text
  mirror dir url =
      and_then
        (run dir (codes "clone" ∷ codes "--mirror" ∷ url ∷ dir ∷ [])
          (wrap (codes "git clone --mirror")))
        (λ w. (w, returns dir))

  unfoldable pub clone : Text → Text → Text → W → W × Outcome Text
  clone dir url branch =
      let branch_args : List Text = if branch == [] then [] else codes "--branch" ∷ branch ∷ [] in
      and_then
        (run dir (codes "clone" ∷ [] ++ branch_args ++ url ∷ dir ∷ []) (wrap (codes "git clone")))
        (λ w. (w, returns dir))

  -- `checkPush`
  unfoldable pub check_push : Text → Text → W → W × Outcome Unit
  check_push dir upstream =
      and_then
        (run dir (codes "tag" ∷ codes "--force" ∷ check_push_tag ∷ [])
          (wrap (codes "tag for write check")))
        (and_then
          (run dir (codes "push" ∷ codes "--force" ∷ upstream ∷ codes "tag" ∷ check_push_tag ∷ [])
            (wrap (codes "attempt to push tag")))
          (run dir (codes "push" ∷ codes "--delete" ∷ upstream ∷ codes "tag" ∷ check_push_tag ∷ [])
            (λ e. e)))

  -- `fetch`, without reference specifications; the error of a missing reference is no error.
  unfoldable pub fetch : Text → Text → W → W × Outcome Unit
  fetch dir upstream w =
      let r = git dir (codes "fetch" ∷ codes "--tags" ∷ upstream ∷ []) w in
      (
        r.0,
        elim (error_of r.1) [
          | none ↦ returns tt
          | some e ↦
              if contains_text e (codes "Couldn't find remote ref")
              then returns tt
              else fails (wrap (codes "git fetch --tags " ++ upstream ++ codes " []") e)
        ],
      )

  -- `refExists`
  unfoldable pub ref_exists : Text → Text → W → W × Outcome Bool
  ref_exists dir ref w =
      let r = git dir (codes "rev-list" ∷ ref ∷ []) w in
      (
        r.0,
        elim (error_of r.1) [
          | none ↦ returns true
          | some e ↦ if contains_text e (codes "unknown revision") then returns false else fails e
        ],
      )

  -- `getNotesRef`
  unfoldable pub get_notes_ref : Text → Text → W → W × Outcome Text
  get_notes_ref dir ref =
      read dir (codes "notes" ∷ codes "--ref" ∷ ref ∷ codes "get-ref" ∷ [])
        (λ out. returns (trim_space out))

  -- `noteRevList`
  unfoldable pub note_rev_list : Text → Text → W → W × Outcome (Option (List Text))
  note_rev_list dir ref =
      read dir (codes "notes" ∷ codes "--ref" ∷ ref ∷ codes "list" ∷ [])
        (λ out. returns (note_revisions (split_list out)))

  -- `refRevision`
  unfoldable pub ref_revision : Text → Text → W → W × Outcome Text
  ref_revision dir ref =
      read dir (codes "rev-list" ∷ codes "--max-count" ∷ codes "1" ∷ ref ∷ [])
        (λ out. returns (trim_space out))

  -- `revlist`
  unfoldable pub revlist : Text → Text → W → W × Outcome (List Text)
  revlist dir ref = read dir (codes "rev-list" ∷ ref ∷ []) (λ out. returns (split_list out))

  -- `onelinelog`
  unfoldable pub onelinelog : Text → Text → Text → W → W × Outcome (Option (List Commit))
  onelinelog dir refspec subdir =
      let paths : List Text = if subdir == [] then [] else codes "--" ∷ subdir ∷ [] in
      read dir (codes "log" ∷ codes "--oneline" ∷ codes "--no-abbrev-commit" ∷ refspec ∷ paths)
        (λ out. returns (split_log out))

  -- `moveTagAndPush`
  unfoldable pub move_tag_and_push : Text → Text → Text → Text → Text → W → W × Outcome Unit
  move_tag_and_push dir tag ref msg upstream =
      and_then
        (run dir (codes "tag" ∷ codes "--force" ∷ codes "-a" ∷ codes "-m" ∷ msg ∷ tag ∷ ref ∷ [])
          (wrap (codes "moving tag " ++ tag)))
        (run dir (codes "push" ∷ codes "--force" ∷ upstream ∷ codes "tag" ∷ tag ∷ [])
          (wrap (codes "pushing tag to origin")))

  -- `changedFiles`: a path with a slash in front is refused before git runs.
  abbrev changed_args : Text → Text → List Text
  changed_args sub_path ref =
      codes "diff"
      ∷ codes "--name-only"
      ∷ codes "--diff-filter=ACMRT"
      ∷ ref
      ∷ codes "--"
      ∷ sub_path
      ∷ []

  unfoldable pub changed_files : Text → Text → Text → W → W × Outcome (List Text)
  changed_files dir [] ref w = read dir (changed_args [] ref) (λ out. returns (split_list out)) w
  changed_files dir (c ∷ path) ref w =
      if c == b'/'
      then (w, fails (codes "git subdirectory should not have leading forward slash"))
      else read dir (changed_args (c ∷ path) ref) (λ out. returns (split_list out)) w

  -- `fileLastCommit`
  unfoldable pub file_last_commit : Text → Text → W → W × Outcome Text
  file_last_commit dir file =
      read dir
        (codes "log" ∷ codes "-n" ∷ codes "1" ∷ codes "--pretty=format:%H" ∷ codes "--" ∷ file ∷ [])
        returns

  -- `check`: whether there are changes, or git has an error.
  unfoldable pub check : Text → Text → W → W × Bool
  check dir subdir w =
      let r = git dir (codes "diff" ∷ codes "--quiet" ∷ codes "--" ∷ subdir ∷ []) w in
      (r.0, elim (error_of r.1) [ none ↦ false | some e ↦ true ])

  -- `commit`
  unfoldable pub commit : Text → Text → Text → W → W × Outcome Unit
  commit dir author message =
      let author_args : List Text = if author == [] then [] else codes "--author" ∷ author ∷ [] in
      run dir
        (codes "commit" ∷ codes "--no-verify" ∷ codes "-a" ∷ []
          ++ author_args
          ++ codes "-m" ∷ message ∷ [])
        (wrap (codes "git commit"))

  -- `config`, for the order in which Go visits the two settings.
  unfoldable pub config : Text → List (Text × Text) → W → W × Outcome Unit
  config dir [] w = (w, returns tt)
  config dir ((k, v) ∷ settings) w =
      and_then (run dir (codes "config" ∷ k ∷ v ∷ []) (wrap (codes "setting git config")))
        (λ w'. config dir settings w') w
