-- ===== src/Releases.antt =====
-- Helm releases: what the controller (pkg/controller/c7nhelmrelease) and the commands of pkg/command/helm
-- do with the release that a C7NHelmRelease describes. Helm's own outcomes and the decoding of payloads are
-- inputs. The world has one release.
pub mod Retrying
pub mod Installing
mod Tests
use choerodon_cluster_agent.Base.{
  ℕ, suc, ◌+◌, Bool, true, false, not, ◌&&◌, Option, none, some, List, [], ◌∷◌, ◌++◌, ◌==◌, nat_eq,
  list_eq, if◌then◌else◌,
}
use choerodon_cluster_agent.Base.Text.{Text, codes}

-- `C7NHelmRelease`: the label of its cluster, the commit and the operation in its annotations (with an
-- empty commit where there is none), and the name of its chart.
pub record Instance : Type 0 where
  pub cluster_label : Text
  pub commit : Text
  pub operate : Option Text
  pub chart_name : Text

-- The commands about a release, by the types under which `command.Funcs` has their handlers:
-- `InstallJobInfo` and `InstallHelmRelease` with the failures so far, `UpgradeJobInfo`,
-- `UpgradeHelmRelease`, `CrossUpgradeJobInfo` and `DeleteHelmRelease`. The commit and the chart go with
-- the command.
pub record Request : Type 0 where
  pub commit : Text
  pub chart_name : Text
  pub failed_count : ℕ

pub data Command : Type 0 where
  install_job install upgrade_job upgrade cross_upgrade_job : Request → Command
  delete_release : Command

-- The responses: the release, installed, upgraded or deleted, the hooks, or a failure with its commit.
pub data Reply : Type 0 where
  installed_info upgraded_info install_hooks upgrade_hooks deleted_info delete_failed : Reply
  install_failed cross_upgrade_failed : Text → Reply

-- The release resource, unless it has been deleted, whether Helm has the release, the commands in
-- `CommandChan` and the packets in `ResponseChan`.
pub record World : Type 0 where
  pub crd : Option Instance
  pub deployed : Bool
  pub commands : List Command
  pub replies : List Reply

pub record Settings : Type 0 where
  pub namespace : Text
  pub agent_namespace : Text
  pub cluster_id : Text

abbrev pub request_of : Instance → Request
request_of i = record { commit = i.commit; chart_name = i.chart_name; failed_count = 0 }

abbrev pub with_command : Command → World → World
with_command c w = record w { commands = w.commands ++ c ∷ [] }

abbrev pub with_reply : Reply → World → World
with_reply r w = record w { replies = w.replies ++ r ∷ [] }

-- `deleteC7NHelmReleaseOperateAnnotation`, when the API server answers.
unfoldable pub delete_operate : World → World
delete_operate w = record w {
  crd = elim w.crd [ none ↦ none | some i ↦ some (record i { operate = none }) ];
}

-- The switch of `Reconcile` on the operation. `getHelmRelease` finds the release if Helm has it and can
-- be read.
unfoldable pub reconcile_operate : Bool → Instance → Text → World → World
unfolding delete_operate
reconcile_operate readable i operate w =
    if operate == codes "INSTALL"
    then (if w.deployed && readable
        then delete_operate (with_reply installed_info w)
        else with_command (install_job (request_of i)) w)
    else if operate == codes "UPGRADE"
    then with_command (upgrade_job (request_of i)) w
    else if operate == codes "CROSS-UPGRADE"
    then with_command (cross_upgrade_job (request_of i)) w
    else w

-- `Reconcile`; the second component is whether it returns no error. `crd_gone` is `checkCrdDeleted`. Where
-- the release cannot be read for another reason than that it is not found, nothing is done, and that case is
-- left out.
unfoldable pub reconcile : Settings → Bool → Bool → World → World × Bool
unfolding reconcile_operate
reconcile s crd_gone readable w = elim w.crd [
  | none ↦ (if crd_gone then w else with_command delete_release w, true)
  | some i ↦
      if s.namespace == s.agent_namespace && not (i.cluster_label == s.cluster_id)
      then (w, true)
      else if i.commit == []
      then (w, false)
      else elim i.operate [
        | none ↦ (w, true)
        | some operate ↦ (reconcile_operate readable i operate w, true)
      ]
]

-- The outcome of a call of Helm, or of what leads to it: it succeeds, fails with an error that has "EOF" in
-- it, or fails otherwise. `refused` is an error of `GetCharUsernameAndPassword`.
pub data Outcome : Type 0 where
  succeeds eof breaks refused : Outcome

-- The retry of `InstallJobInfo` and `InstallHelmRelease` after such an error.
unfoldable pub retry : (Request → Command) → Request → World → World
retry again r w =
    if r.failed_count == 5
    then with_reply (install_failed r.commit) w
    else with_command (again (record r { failed_count = r.failed_count + 1 })) w

-- `InstallJobInfo` from the account for the chart repository on.
unfoldable pub pre_install : Outcome → Request → World → World
unfolding retry
pre_install succeeds r w = with_command (install r) (with_reply install_hooks w)
pre_install eof r w = retry install_job r w
pre_install breaks r w = with_reply (install_failed r.commit) w
pre_install refused r w = with_reply (install_failed r.commit) w

-- `InstallJobInfo`
unfoldable pub handle_install_job : Outcome → Request → World → World
unfolding pre_install
handle_install_job o r w =
    let hooked = pre_install o r w in
    if r.chart_name == codes "prometheus-operator" then with_command (install r) w else hooked

-- `InstallHelmRelease`; the annotation is deleted by the deferred call.
unfoldable pub handle_install : Outcome → Request → World → World
unfolding retry delete_operate
handle_install succeeds r w =
    delete_operate (with_reply installed_info (record w { deployed = true }))
handle_install eof r w = delete_operate (retry install r w)
handle_install breaks r w = delete_operate (with_reply (install_failed r.commit) w)
handle_install refused r w = delete_operate (with_reply (install_failed r.commit) w)

-- `UpgradeJobInfo`
unfoldable pub handle_upgrade_job : Outcome → Request → World → World
handle_upgrade_job o r w =
    if r.chart_name == codes "prometheus-operator" then with_command (upgrade r) w else elim o [
      | succeeds ↦ with_command (upgrade r) (with_reply upgrade_hooks w)
      | _ ↦ with_reply (install_failed r.commit) w
    ]

-- `UpgradeHelmRelease`
unfoldable pub handle_upgrade : Outcome → Request → World → World
unfolding delete_operate
handle_upgrade succeeds r w = delete_operate (with_reply upgraded_info w)
handle_upgrade _ r w = delete_operate (with_reply (install_failed r.commit) w)

-- `CrossUpgradeJobInfo`
unfoldable pub handle_cross_upgrade : Outcome → Request → World → World
handle_cross_upgrade succeeds r w = with_command (install_job r) (record w { deployed = false })
handle_cross_upgrade _ r w = with_reply (cross_upgrade_failed r.commit) w

-- `DeleteHelmRelease`
unfoldable pub handle_delete : Outcome → World → World
handle_delete succeeds w = with_reply deleted_info (record w { deployed = false })
handle_delete _ w = with_reply delete_failed w

unfoldable pub handle : Command → Outcome → World → World
unfolding handle_install_job handle_install handle_upgrade_job handle_upgrade handle_cross_upgrade
    handle_delete
handle (install_job r) o w = handle_install_job o r w
handle (install r) o w = handle_install o r w
handle (upgrade_job r) o w = handle_upgrade_job o r w
handle (upgrade r) o w = handle_upgrade o r w
handle (cross_upgrade_job r) o w = handle_cross_upgrade o r w
handle delete_release o w = handle_delete o w

-- The worker takes the first command of the channel, with the outcome that it meets.
unfoldable pub work : Outcome → World → World
unfolding handle
work o w = elim w.commands [ [] ↦ w | c ∷ rest ↦ handle c o (record w { commands = rest }) ]

unfoldable pub work_all : List Outcome → World → World
unfolding work
work_all [] w = w
work_all (o ∷ outcomes) w = work_all outcomes (work o w)
