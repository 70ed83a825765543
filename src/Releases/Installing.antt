-- ===== src/Releases/Installing.antt =====
-- From the operation that `LabelRepoObj` writes on a release to the release in the cluster: the controller
-- and the commands together.
use choerodon_cluster_agent.Base.{
  ◌≡◌, ◌∙◌, ap, Bool, true, false, not, ◌&&◌, Option, none, some, List, [], ◌∷◌, ◌++◌, ◌==◌, nat_eq,
  list_eq,
}
use choerodon_cluster_agent.Base.Text.{Text, codes}
use choerodon_cluster_agent.Releases.{
  Instance, Settings, World, Request, Outcome, succeeds, Reply, installed_info, install_hooks,
  upgraded_info, upgrade_hooks, reconcile, reconcile_operate, request_of, with_command, with_reply,
  handle, handle_install, pre_install, handle_upgrade, handle_upgrade_job, handle_cross_upgrade,
  delete_operate, work, work_all, install_job, upgrade_job, upgrade,
}
use choerodon_cluster_agent.Releases.Retrying.{install_job-hooked}

-- A release of the repository that the controller may act on, with its operation.
pub record IsReady (s : Settings) (i : Instance) : Type 0 where
  pub ours : (s.namespace == s.agent_namespace && not (i.cluster_label == s.cluster_id)) ≡ false
  pub committed : (i.commit == []) ≡ false
  pub hooked : (i.chart_name == codes "prometheus-operator") ≡ false

abbrev pub with_operate : Text → Instance → Instance
with_operate operate i = record i { operate = some operate }

-- The world in which Helm has a release or not, with nothing to do.
abbrev pub still : Option Instance → Bool → List Reply → World
still crd deployed replies = record {
  crd = crd;
  deployed = deployed;
  commands = [];
  replies = replies;
}

reconcile-ready :
    (s : Settings) (gone readable : Bool) (operate : Text) (i : Instance) (d : Bool)
    (replies : List Reply)
    → IsReady s i
    → (reconcile s gone readable (still (some (with_operate operate i)) d replies)).0
      ≡ reconcile_operate readable
          (with_operate operate i)
          operate
          (still (some (with_operate operate i)) d replies)
unfolding reconcile
reconcile-ready s gone readable operate i d replies r = rw (r.ours, r.committed)

-- The operations, as they stand in the annotation.
pub data Operation : Type 0 where
  installs upgrades cross_upgrades : Operation

abbrev pub text_of : Operation → Text
text_of installs = codes "INSTALL"
text_of upgrades = codes "UPGRADE"
text_of cross_upgrades = codes "CROSS-UPGRADE"

-- Helm has no release that is to be installed, and has the one that is to be upgraded.
abbrev pub Fits : Operation → Bool → Type 0
Fits installs d = d ≡ false
Fits upgrades d = d ≡ true
Fits cross_upgrades d = Unit

-- The outcomes of the commands of an operation that all succeed.
abbrev pub successes : Operation → List Outcome
successes installs = succeeds ∷ succeeds ∷ []
successes upgrades = succeeds ∷ succeeds ∷ []
successes cross_upgrades = succeeds ∷ succeeds ∷ succeeds ∷ []

abbrev pub with_replies : Operation → List Reply → List Reply
with_replies installs replies = (replies ++ install_hooks ∷ []) ++ installed_info ∷ []
with_replies upgrades replies = (replies ++ upgrade_hooks ∷ []) ++ upgraded_info ∷ []
with_replies cross_upgrades replies = (replies ++ install_hooks ∷ []) ++ installed_info ∷ []

-- The world once the operation is done.
abbrev pub done : Operation → Instance → List Reply → World
done o i replies = still (some (record i { operate = none })) true (with_replies o replies)

upgrade_job-hooked :
    (r : Request) (w : World)
    → (r.chart_name == codes "prometheus-operator") ≡ false
    → handle_upgrade_job succeeds r w ≡ with_command (upgrade r) (with_reply upgrade_hooks w)
unfolding handle_upgrade_job
upgrade_job-hooked r w e = rw (handle_upgrade_job, e)

-- From the command of the installation or the upgrade on.
work-install :
    (outcomes : List Outcome) (r : Request) (crd : Option Instance) (d : Bool)
    (replies : List Reply)
    → (r.chart_name == codes "prometheus-operator") ≡ false
    → work_all
        (succeeds ∷ succeeds ∷ outcomes)
        (record (still crd d replies) { commands = install_job r ∷ [] })
      ≡ work_all outcomes
          (delete_operate (still crd true ((replies ++ install_hooks ∷ []) ++ installed_info ∷ [])))
unfolding work_all work handle handle_install pre_install delete_operate
work-install outcomes r crd d replies e =
    ap (work_all (succeeds ∷ outcomes)) (install_job-hooked succeeds r (still crd d replies) e)

work-upgrade :
    (outcomes : List Outcome) (r : Request) (crd : Option Instance) (replies : List Reply)
    → (r.chart_name == codes "prometheus-operator") ≡ false
    → work_all
        (succeeds ∷ succeeds ∷ outcomes)
        (record (still crd true replies) { commands = upgrade_job r ∷ [] })
      ≡ work_all outcomes
          (delete_operate (still crd true ((replies ++ upgrade_hooks ∷ []) ++ upgraded_info ∷ [])))
unfolding work_all work handle handle_upgrade delete_operate
work-upgrade outcomes r crd replies e =
    ap (work_all (succeeds ∷ outcomes)) (upgrade_job-hooked r (still crd true replies) e)

operate-done :
    (readable : Bool) (o : Operation) (i : Instance) (d : Bool) (replies : List Reply)
    → (i.chart_name == codes "prometheus-operator") ≡ false
    → Fits o d
    → work_all (successes o) (
        reconcile_operate readable
          (with_operate (text_of o) i)
          (text_of o)
          (still (some (with_operate (text_of o) i)) d replies))
      ≡ done o i replies
unfolding reconcile_operate work_all work delete_operate handle handle_cross_upgrade nat_eq list_eq
operate-done readable installs i true replies e f = absurd cc
operate-done readable upgrades i false replies e f = absurd cc
operate-done readable installs i false replies e f =
    work-install [] (request_of i) (some (with_operate (text_of installs) i)) false replies e
operate-done readable upgrades i true replies e f =
    work-upgrade [] (request_of i) (some (with_operate (text_of upgrades) i)) replies e
operate-done readable cross_upgrades i d replies e f =
    work-install [] (request_of i) (some (with_operate (text_of cross_upgrades) i)) false replies e

done-quiet :
    (s : Settings) (gone readable : Bool) (o : Operation) (i : Instance) (replies : List Reply)
    → IsReady s i
    → reconcile s gone readable (done o i replies) ≡ (done o i replies, true)
unfolding reconcile
done-quiet s gone readable o i replies r = rw (r.ours, r.committed)

-- Let the controller meet a release of its own with a commit and an operation, whose chart is not that of
-- prometheus-operator, with nothing else to do; INSTALL where Helm does not have the release, UPGRADE where
-- it does, CROSS-UPGRADE in both cases. If the outcomes of all commands are successes, then after two
-- commands, or three for CROSS-UPGRADE, Helm has the release, the hooks and the release have been
-- reported, nothing is left to do, and the operation is gone, so that the controller does nothing when
-- it meets the release again.
pub reconcile-done :
    (s : Settings) (gone readable : Bool) (o : Operation) (i : Instance) (d : Bool)
    (replies : List Reply)
    → IsReady s i
    → Fits o d
    → (work_all
          (successes o)
          (reconcile s gone readable (still (some (with_operate (text_of o) i)) d replies)).0
        ≡ done o i replies)
      × (reconcile s gone readable (done o i replies) ≡ (done o i replies, true))
reconcile-done s gone readable o i d replies r f = (
  ap (work_all (successes o)) (reconcile-ready s gone readable (text_of o) i d replies r)
      ∙ operate-done readable o i d replies r.hooked f,
  done-quiet s gone readable o i replies r,
)
