-- ===== src/Releases/Tests.antt =====
-- Releases at concrete inputs.
use choerodon_cluster_agent.Base.{
  ◌≡◌, refl, true, false, none, some, [], ◌∷◌, nat_eq, list_eq, arith,
}
use choerodon_cluster_agent.Base.Text.{codes}
use choerodon_cluster_agent.Releases.{
  Instance, Settings, World, Request, install_job, succeeds, eof, work_all, reconcile,
}
use choerodon_cluster_agent.Releases.Retrying.{IsAnswered, waiting, work_all-install_job}
use choerodon_cluster_agent.Releases.Installing.{
  IsReady, still, done, with_operate, text_of, successes, cross_upgrades, reconcile-done,
}

abbrev request : Request
request = record { commit = codes "abc"; chart_name = codes "web"; failed_count = 0 }

abbrev nothing : World
nothing = still none false []

-- Six failures to read the chart end the installation.
six_failures :
    (work_all
      (eof ∷ eof ∷ succeeds ∷ eof ∷ eof ∷ eof ∷ eof ∷ [])
      (waiting (install_job request) nothing)).commands
    ≡ []
unfolding work_all nat_eq list_eq
six_failures = refl

work_all-install_job_example : IsAnswered nothing (
    work_all
      (eof ∷ succeeds ∷ eof ∷ succeeds ∷ eof ∷ eof ∷ eof ∷ [])
      (waiting (install_job request) nothing))
work_all-install_job_example =
    work_all-install_job (eof ∷ succeeds ∷ eof ∷ succeeds ∷ eof ∷ eof ∷ eof ∷ []) request nothing
      (omega arith) (omega arith)

abbrev settings : Settings
settings = record {
  namespace = codes "dev";
  agent_namespace = codes "agent";
  cluster_id = codes "7";
}

abbrev release : Instance
release = record {
  cluster_label = [];
  commit = codes "abc";
  operate = none;
  chart_name = codes "web";
}

ready : IsReady settings release
unfolding list_eq nat_eq
ready = record { ours = refl; committed = refl; hooked = refl }

reconcile-done_example :
    (work_all
        (successes cross_upgrades)
        (reconcile settings false true
          (still (some (with_operate (text_of cross_upgrades) release)) true [])).0
      ≡ done cross_upgrades release [])
    × (reconcile settings false true (done cross_upgrades release [])
        ≡ (done cross_upgrades release [], true))
reconcile-done_example = reconcile-done settings false true cross_upgrades release true [] ready tt
