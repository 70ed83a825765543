-- ===== src/Git/Tests.antt =====
-- Runs of git, of a start and of the parsers at concrete inputs.
use choerodon_cluster_agent.Base.{
  ℕ, suc, ◌≡◌, ◌≢◌, refl, true, none, some, List, [], ◌∷◌, ◌==◌, nat_eq, list_eq, arith,
  if◌then◌else◌,
}
use choerodon_cluster_agent.Base.Text.{Text, codes, has_prefix, contains_text}
use choerodon_cluster_agent.Git.{
  is_space, trim_left, trim_right, trim_space, split_on, split_list, split_first_space, Commit,
  split_log_lines, split_log, fields, starts_with_space, note_revisions, drop_return, scanned_lines,
  in_cutset, trim_left_error, trim_right_error, first_error, find_error_message, Ran, error_of,
}
use choerodon_cluster_agent.Git.Commands.{
  Outcome, returns, run, and_then, read, mirror, fetch, check_push, ref_revision, check, commit,
  ref_exists,
}
use choerodon_cluster_agent.Git.Repository.{
  ready, Repo, new_repo, tick, ended, start_mirror, start_check, turn_in, start,
}
use choerodon_cluster_agent.Git.Working.{
  Config, Checkout, push, add_note, note_head, push_refs, commit_and_push,
}
use choerodon_cluster_agent.Git.Lines.{print_lines, commit_lines, split_log-print}
use choerodon_cluster_agent.Git.Readiness.{Fate, start-Fate}

abbrev fine : Ran
fine = record { output = []; errors = []; failed = none; context_error = none }

abbrev denied : Ran
denied = record {
  output = [];
  errors = codes "remote: no\nfatal: denied\n";
  failed = some (codes "exit status 128");
  context_error = none;
}

-- A program that fails in one run, by the number of the run.
abbrev fails_at : ℕ → Text → List Text → ℕ → ℕ × Ran
fails_at n dir args w = (suc w, if w == n then denied else fine)

abbrev temp_dir : ℕ → ℕ × Outcome Text
temp_dir w = (w, returns (codes "/tmp/m"))

abbrev remove_all : Text → ℕ → ℕ
remove_all dir w = w

abbrev origin : Text
origin = codes "git@h:r"

abbrev started : Repo
started = record {
  url = origin;
  dir = codes "/tmp/m";
  status = ready;
  err = none;
  refreshed = true;
}

-- The first check of the push fails; after a wait the second succeeds.
start_runs :
    start (fails_at 3) temp_dir remove_all 6 (tick ∷ []) (new_repo origin) 0
    ≡ ((started, 8), ended true)
unfolding start turn_in start_mirror start_check new_repo mirror fetch check_push and_then run
    error_of find_error_message first_error scanned_lines drop_return split_on has_prefix
    contains_text nat_eq list_eq
start_runs = refl

-- A fetch that fails leaves the directory of the mirror in the state after its removal.
stale_dir :
    (start (fails_at 1) temp_dir remove_all 6 [] (new_repo origin) 0).0.0.dir ≡ codes "/tmp/m"
unfolding start turn_in start_mirror new_repo mirror fetch and_then run error_of find_error_message
    first_error scanned_lines drop_return split_on has_prefix contains_text nat_eq list_eq
stale_dir = refl

-- Letters of the message are cut off with the word in front of it.
error_trimmed :
    find_error_message (codes "error: remote refused the error\n") ≡ codes "mote refused th"
unfolding find_error_message first_error scanned_lines drop_return split_on has_prefix
    trim_left_error trim_right_error in_cutset nat_eq
error_trimmed = refl

-- A commit without a message at the end of a log.
empty_message : split_log (codes "c2 second\nc1 \n") ≡ none
unfolding split_log split_log_lines split_list split_first_space trim_space trim_left trim_right
    split_on is_space nat_eq
empty_message = refl

notes_read :
    note_revisions (split_list (codes "n1 c1\nn2 c2\n")) ≡ some (codes "c1" ∷ codes "c2" ∷ [])
unfolding note_revisions split_list fields starts_with_space trim_space trim_left trim_right
    split_on is_space nat_eq
notes_read = refl

start-Fate_example :
    Fate
      (fails_at 3)
      temp_dir
      remove_all
      (new_repo origin)
      (start (fails_at 3) temp_dir remove_all 6 (tick ∷ []) (new_repo origin) 0).0.0
      (start (fails_at 3) temp_dir remove_all 6 (tick ∷ []) (new_repo origin) 0).1
start-Fate_example =
    start-Fate (fails_at 3) temp_dir remove_all 6 (tick ∷ []) (new_repo origin) 0
      (unfold new_repo nat_eq list_eq in omega arith)

abbrev conf : Config
conf = record {
  branch = codes "master";
  path = [];
  sync_tag = codes "agent-sync";
  notes_ref = codes "choerodon";
  user_name = codes "agent";
  user_email = codes "a@b";
  skip_message = [];
  dev_ops_tag = codes "devops-sync";
}

abbrev checkout : Checkout
checkout = record {
  dir = codes "/tmp/m";
  conf = conf;
  upstream = origin;
  real_notes_ref = codes "refs/notes/choerodon";
}

-- The test for changes fails, since there are some; five further runs commit, annotate and push.
commit_runs :
    commit_and_push (fails_at 0) checkout [] (codes "m") (some (codes "{}")) 0 ≡ (6, returns tt)
unfolding commit_and_push check commit note_head add_note push_refs push ref_exists ref_revision
    read and_then run error_of find_error_message first_error scanned_lines drop_return split_on
    has_prefix trim_space trim_left trim_right nat_eq list_eq
commit_runs = refl

new_repo-status : (new_repo origin).status ≢ ready
unfolding new_repo nat_eq list_eq
new_repo-status h = absurd (ground arith)

abbrev log : List Commit
log =
    record { revision = codes "c2"; message = codes "add" }
    ∷ record { revision = codes "c1"; message = codes "begin" }
    ∷ []

split_log-print_example : split_log (print_lines (commit_lines log)) ≡ some log
split_log-print_example =
    split_log-print log
      (unfold is_space trim_right nat_eq in
        (
          (refl, (refl, (refl, (refl, (refl, (refl, (refl, tt)))))), refl),
          ((refl, (refl, (refl, (refl, (refl, (refl, (refl, (refl, (refl, tt)))))))), refl), tt),
        ))
      (unfold nat_eq in ((refl, (refl, tt)), ((refl, (refl, tt)), tt)))
