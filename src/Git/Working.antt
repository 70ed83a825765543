-- ===== src/Git/Working.antt =====
-- pkg/git/working.go: the working clone of a repository, and its transactions.
use choerodon_cluster_agent.Base.{
  true, false, Option, none, some, List, [], ◌∷◌, ◌++◌, map, ◌==◌, nat_eq, list_eq, if◌then◌else◌,
}
use choerodon_cluster_agent.Base.Text.{Text, codes, contains_text, to_lower}
use choerodon_cluster_agent.Git.{Ran, error_of}
use choerodon_cluster_agent.Git.Commands.{
  Outcome, returns, fails, run, wrap, and_then, config, get_notes_ref, ref_revision, ref_exists,
  check, commit, move_tag_and_push, changed_files, file_last_commit, note_rev_list,
}
use choerodon_cluster_agent.Git.Repository.{Repo, working_clone}

-- The fields of `Config` that a checkout uses.
pub record Config : Type 0 where
  pub branch : Text
  pub path : Text
  pub sync_tag : Text
  pub notes_ref : Text
  pub user_name : Text
  pub user_email : Text
  pub skip_message : Text
  pub dev_ops_tag : Text

-- `Checkout`
pub record Checkout : Type 0 where
  pub dir : Text
  pub conf : Config
  pub upstream : Text
  pub real_notes_ref : Text

-- A list of texts as `%s` prints it between its brackets.
abbrev spaced : List Text → Text
spaced [] = []
spaced (s ∷ []) = s
spaced (s ∷ t ∷ ts) = s ++ b' ' ∷ spaced (t ∷ ts)

module _ {W : Type 0} (git : Text → List Text → W → W × Ran) where
  -- `push`
  unfoldable pub push : Text → Text → List Text → W → W × Outcome Unit
  push dir upstream refs =
      run git dir (codes "push" ∷ upstream ∷ refs)
        (wrap (codes "git push " ++ upstream ++ codes " [" ++ spaced refs ++ codes "]"))

  -- `addNote`, of a note that is encoded.
  unfoldable pub add_note : Text → Text → Text → Text → W → W × Outcome Unit
  add_note dir rev ref note =
      run git dir (codes "notes" ∷ codes "--ref" ∷ ref ∷ codes "add" ∷ codes "-m" ∷ note ∷ rev ∷ [])
        (λ e. e)

  -- `getNote`, for what the decoder makes of the output.
  unfoldable pub get_note :
      {N : Type 0} → (Text → Outcome N) → Text → Text → Text → W → W × Outcome (Option N)
  get_note decode dir ref rev w =
      let r = git dir (codes "notes" ∷ codes "--ref" ∷ ref ∷ codes "show" ∷ rev ∷ []) w in
      (
        r.0,
        elim (error_of r.1) [
          | some e ↦
              if contains_text (to_lower e) (codes "no note found for object")
              then returns none
              else fails e
          | none ↦ elim (decode r.1.output) [ returns n ↦ returns (some n) | fails e ↦ fails e ]
        ],
      )

  module _ (temp_dir : W → W × Outcome Text) (remove_all : Text → W → W) where
    -- The end of `Clone`: the directory is removed where a command has an error.
    unfoldable pub or_removed : {A : Type 0} → Text → W × Outcome A → W × Outcome A
    or_removed dir (w, returns a) = (w, returns a)
    or_removed dir (w, fails e) = (remove_all dir w, fails e)

    -- `Clone`, for the order in which Go visits the two settings of `config`.
    unfoldable pub clone_repo :
        (List (Text × Text) → List (Text × Text)) → Repo → Config → W → W × Outcome Checkout
    clone_repo order r conf w =
        let d = working_clone git temp_dir remove_all r conf.dev_ops_tag w in
        elim d.1 [
          | fails e ↦ (d.0, fails e)
          | returns dir ↦
              let settings = order (
                (codes "user.name", conf.user_name) ∷ (codes "user.email", conf.user_email) ∷ []) in
              let c = or_removed dir (config git dir settings d.0) in
              elim c.1 [
                | fails e ↦ (c.0, fails e)
                | returns u ↦
                    let n = or_removed dir (get_notes_ref git dir conf.notes_ref c.0) in
                    (
                      n.0,
                      elim n.1 [
                        | fails e ↦ fails e
                        | returns ref ↦ returns (record {
                          dir = dir;
                          conf = conf;
                          upstream = r.url;
                          real_notes_ref = ref;
                        })
                      ],
                    )
              ]
        ]

    -- `Checkout.Clean`
    unfoldable pub clean_checkout : Checkout → W → W
    clean_checkout c w = if c.dir == [] then w else remove_all c.dir w

  -- `HeadRevision`, `SyncRevision` and `DevOpsSyncRevision`
  unfoldable pub head_revision : Checkout → W → W × Outcome Text
  head_revision c = ref_revision git c.dir (codes "HEAD")

  unfoldable pub sync_revision : Checkout → W → W × Outcome Text
  sync_revision c = ref_revision git c.dir c.conf.sync_tag

  unfoldable pub dev_ops_sync_revision : Checkout → W → W × Outcome Text
  dev_ops_sync_revision c = ref_revision git c.dir c.conf.dev_ops_tag

  -- `MoveSyncTagAndPush`
  unfoldable pub move_sync_tag_and_push : Checkout → Text → Text → W → W × Outcome Unit
  move_sync_tag_and_push c ref msg = move_tag_and_push git c.dir c.conf.sync_tag ref msg c.upstream

  -- `ChangedFiles`, for what `filepath.Join` makes of the directory and a file.
  unfoldable pub changed_in_checkout :
      (Text → Text → Text) → Checkout → Text → W → W × Outcome (List Text × List Text)
  changed_in_checkout join c ref w =
      let r = changed_files git c.dir c.conf.path ref w in
      (r.0, elim r.1 [ returns fs ↦ returns (map (join c.dir) fs, fs) | fails e ↦ fails e ])

  -- `FileLastCommit` and `NoteRevList`
  unfoldable pub last_commit_of : Checkout → Text → W → W × Outcome Text
  last_commit_of c file = file_last_commit git c.dir file

  unfoldable pub note_revisions_of : Checkout → W → W × Outcome (Option (List Text))
  note_revisions_of c = note_rev_list git c.dir c.real_notes_ref

  -- The note of `CommitAndPush`, if there is one.
  unfoldable pub note_head : Checkout → Option Text → W → W × Outcome Unit
  note_head c none w = (w, returns tt)
  note_head c (some note) w =
      let r = ref_revision git c.dir (codes "HEAD") w in
      elim r.1 [
        | fails e ↦ (r.0, fails e)
        | returns rev ↦ add_note c.dir rev c.conf.notes_ref note r.0
      ]

  -- The push of `CommitAndPush`, with the notes if their reference exists.
  unfoldable pub push_refs : Checkout → W → W × Outcome Unit
  push_refs c w =
      let x = ref_exists git c.dir c.real_notes_ref w in
      elim x.1 [
        | fails e ↦ (x.0, fails e)
        | returns there ↦
            let refs : List Text =
              if there then c.conf.branch ∷ c.real_notes_ref ∷ [] else c.conf.branch ∷ [] in
            push c.dir c.upstream refs x.0
      ]

  -- `CommitAndPush`. The help that `PushError` adds to an error is left out.
  unfoldable pub commit_and_push : Checkout → Text → Text → Option Text → W → W × Outcome Unit
  commit_and_push c author message note w =
      let k = check git c.dir c.conf.path w in
      elim k.1 [
        | false ↦ (k.0, fails (codes "no changes made in repo"))
        | true ↦
            and_then git (commit git c.dir author (message ++ c.conf.skip_message))
              (and_then git (note_head c note) (push_refs c)) k.0
      ]
