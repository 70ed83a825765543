-- ===== src/Git/Repository.antt =====
-- pkg/git/repo.go: the mirror of a repository, from its start to its use. The directories for temporary
-- files and the wakes of a waiting start are parameters.
use choerodon_cluster_agent.Base.{
  ℕ, zero, suc, Bool, true, false, Option, none, some, List, [], ◌∷◌, ◌++◌, ◌==◌, nat_eq, list_eq,
  if◌then◌else◌,
}
use choerodon_cluster_agent.Base.Text.{Text, codes}
use choerodon_cluster_agent.Git.{Commit, Ran}
use choerodon_cluster_agent.Git.Commands.{
  Outcome, returns, fails, mirror, clone, fetch, check_push, ref_revision, onelinelog,
}

-- `GitRepoStatus`
pub data Status : Type 0 where
  no_config new cloned ready : Status

-- The state of `Repo`; the last field is the channel `C` of one place.
pub record Repo : Type 0 where
  pub url : Text
  pub dir : Text
  pub status : Status
  pub err : Option Text
  pub refreshed : Bool

-- `NewRepo`
unfoldable pub new_repo : Text → Repo
new_repo url = record {
  url = url;
  dir = [];
  status = if url == [] then no_config else new;
  err = none;
  refreshed = false;
}

-- `setStatus`
abbrev pub set_status : Status → Option Text → Repo → Repo
set_status s e r = record r { status = s; err = e }

-- `errorIfNotReady`
unfoldable pub error_if_not_ready : Status → Option Text
error_if_not_ready ready = none
error_if_not_ready no_config = some (codes "git repo does not have valid config")
error_if_not_ready _ = some (codes "git repo not ready")

-- How the turn of the loop of `Start` goes on: with another turn, with a wait, or with a return, which may
-- have taken its token out of `GitRepoConcurrencySyncChan`.
pub data Turn : Type 0 where
  again waits : Turn
  returned : Bool → Turn
  returned_error : Text → Turn

-- What ends the wait of `Start`.
pub data Wake : Type 0 where
  shutdown tick : Wake

-- Where `Start` is after the wakes: at its end, waiting, or out of the fuel of the model.
pub data Ended : Type 0 where
  ended : Bool → Ended
  ended_error : Text → Ended
  waiting out_of_fuel : Ended

module _ {W : Type 0} (git : Text → List Text → W → W × Ran) where
  -- An operation that is refused unless the repository is ready.
  unfoldable pub if_ready : {A : Type 0} → Repo → (W → W × Outcome A) → W → W × Outcome A
  if_ready r act w = elim (error_if_not_ready r.status) [ some e ↦ (w, fails e) | none ↦ act w ]

  -- `Revision`, `CommitsBefore` and `CommitsBetween`
  unfoldable pub revision : Repo → Text → W → W × Outcome Text
  revision r ref = if_ready r (ref_revision git r.dir ref)

  unfoldable pub commits_before : Repo → Text → Text → W → W × Outcome (Option (List Commit))
  commits_before r ref path = if_ready r (onelinelog git r.dir ref path)

  unfoldable pub commits_between :
      Repo → Text → Text → Text → W → W × Outcome (Option (List Commit))
  commits_between r ref1 ref2 path =
      if_ready r (onelinelog git r.dir (ref1 ++ codes ".." ++ ref2) path)

  -- `Refresh`
  unfoldable pub refresh : Repo → W → (Repo × W) × Outcome Unit
  refresh r w =
      let f = if_ready r (fetch git r.dir (codes "origin")) w in
      elim f.1 [
        | returns u ↦ ((record r { refreshed = true }, f.0), returns tt)
        | fails e ↦ ((r, f.0), fails e)
      ]

  module _ (temp_dir : W → W × Outcome Text) (remove_all : Text → W → W) where
    -- `Clean`
    unfoldable pub clean : Repo → W → Repo × W
    clean r w = (record r { dir = []; status = new }, if r.dir == [] then w else remove_all r.dir w)

    -- `workingClone`
    unfoldable pub working_clone : Repo → Text → W → W × Outcome Text
    working_clone r ref = if_ready r (λ w.
        let t = temp_dir w in
        elim t.1 [ returns working ↦ clone git working r.dir ref t.0 | fails e ↦ (t.0, fails e) ])

    -- `Start` in the state `new`, from the directory on: the mirror, the first fetch, and the removal of
    -- the directory where one of them has an error.
    unfoldable pub start_mirror : Repo → Text → W → (Repo × W) × Turn
    start_mirror r root w =
        let m = mirror git root r.url w in
        elim m.1 [
          | returns dir ↦
              let f = fetch git dir (codes "origin") m.0 in
              let there = record r { dir = dir } in
              elim f.1 [
                | returns u ↦ ((set_status cloned none there, f.0), again)
                | fails e ↦ ((set_status new (some e) there, remove_all root f.0), waits)
              ]
          | fails e ↦ ((set_status new (some e) r, remove_all root m.0), waits)
        ]

    -- `Start` in the state `cloned`: the check that the repository can be written.
    unfoldable pub start_check : Repo → W → (Repo × W) × Turn
    start_check r w =
        let c = check_push git r.dir r.url w in
        elim c.1 [
          | returns u ↦ ((record (set_status ready none r) { refreshed = true }, c.0), again)
          | fails e ↦
              let f = fetch git r.dir (codes "origin") c.0 in
              ((set_status cloned (some e) r, f.0), waits)
        ]

    -- One turn of the loop of `Start`, by the status that it reads.
    unfoldable pub turn_in : Status → Repo → W → (Repo × W) × Turn
    turn_in no_config r w = ((r, w), returned false)
    turn_in new r w =
        let t = temp_dir w in
        elim t.1 [ returns root ↦ start_mirror r root t.0 | fails e ↦ ((r, t.0), returned_error e) ]
    turn_in cloned r w = start_check r w
    turn_in ready r w = ((r, w), returned true)

    abbrev pub start_turn : Repo → W → (Repo × W) × Turn
    start_turn r w = turn_in r.status r w

    -- `Start`, with the wakes that come while it waits.
    unfoldable pub start : ℕ → List Wake → Repo → W → (Repo × W) × Ended
    start zero wakes r w = ((r, w), out_of_fuel)
    start (suc fuel) wakes r w =
        let t = start_turn r w in
        elim t.1 [
          | again ↦ start fuel wakes t.0.0 t.0.1
          | returned released ↦ (t.0, ended released)
          | returned_error e ↦ (t.0, ended_error e)
          | waits ↦ elim wakes [
            | [] ↦ (t.0, waiting)
            | wake ∷ rest ↦ elim wake [
              | shutdown ↦ (t.0, ended false)
              | tick ↦ start fuel rest t.0.0 t.0.1
            ]
          ]
        ]
