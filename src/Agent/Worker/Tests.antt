-- ===== src/Agent/Worker/Tests.antt =====
-- Commands at concrete inputs.
use choerodon_cluster_agent.Base.{
  ℕ, ◌+◌, ◌≡◌, refl, Bool, true, false, Option, none, some, List, [], ◌∷◌, ◌==◌, nat_eq, list_eq,
  if◌then◌else◌,
}
use choerodon_cluster_agent.Base.Text.{Text, codes}
use choerodon_cluster_agent.Agent.Worker.{
  Packet, Handler, Worker, Step, takes, handles, queues, responds, no_output, steps, get_pod_status,
  worker_with,
}
use choerodon_cluster_agent.Agent.Worker.Counting.{total, answered, made, calls, steps-answers}

abbrev packet : Text → Packet
packet type = record { key = codes "cluster:1"; type = type; payload = [] }

-- The handlers of an installation, as helm_job.go and helm.go have them: its job sends itself again when
-- the world outside answers with an end of file, and makes the command of the installation otherwise,
-- which is answered.
abbrev funcs : Text → Option (Handler Bool)
unfolding list_eq
funcs type =
    if type == codes "helm_install_job_info"
    then some (λ eof cmd.
      if eof
      then record no_output { sent_cmds = packet (codes "helm_install_job_info") ∷ [] }
      else record no_output {
        new_cmds = packet (codes "helm_install_resource_info") ∷ [];
        resp = some (packet (codes "helm_install_job_info"));
      })
    else if type == codes "helm_install_resource_info"
    then some
        (λ eof cmd. record no_output { resp = some (packet (codes "helm_install_resource_info")) })
    else none

-- A run in which the job is tried twice, and a nil command is only logged.
abbrev run_of_job : List (Step Bool)
run_of_job =
    takes
    ∷ takes
    ∷ handles 1 true
    ∷ handles 0 true
    ∷ takes
    ∷ queues 0
    ∷ handles 0 false
    ∷ queues 0
    ∷ takes
    ∷ handles 0 false
    ∷ responds 0
    ∷ responds 0
    ∷ queues 0
    ∷ queues 0
    ∷ queues 0
    ∷ []

abbrev after_job : Worker
after_job = record {
  commands = [];
  handling = [];
  queueing = [];
  responding = [];
  responses =
      packet (codes "helm_install_resource_info") ∷ packet (codes "helm_install_job_info") ∷ [];
  stopped = false;
}

abbrev one : Packet → ℕ
one r = 1

abbrev one_cmd : Option Packet → ℕ
one_cmd c = 1

abbrev job_and_nil : List (Option Packet)
job_and_nil = some (packet (codes "helm_install_job_info")) ∷ none ∷ []

steps-answers_example :
    (total one after_job.responses
      ≡ total (answered funcs one) (calls funcs run_of_job (worker_with job_and_nil)))
    × (total
          (λ (c : Bool × Option Packet). one_cmd c.1)
          (calls funcs run_of_job (worker_with job_and_nil))
        ≡ total one_cmd job_and_nil
          + total (made funcs one_cmd) (calls funcs run_of_job (worker_with job_and_nil)))
unfolding steps funcs nat_eq
steps-answers_example =
    steps-answers funcs one one_cmd job_and_nil run_of_job after_job refl
      (record { no_commands = refl; no_handling = refl; no_queueing = refl; no_responding = refl })

-- Two pods leave the status empty, and the first error ends the reports.
two_pods :
    (get_pod_status
      (codes "1.1.1")
      (λ ns sel. some (codes "Running" ∷ codes "Pending" ∷ []))).0.status
    ≡ []
unfolding get_pod_status
two_pods = refl
