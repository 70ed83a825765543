-- ===== src/Agent/Loops/Uninterrupted.antt =====
-- pkg/gitops/gitops.go, `listenEnvs`: a call with nothing in between is one of the interleavings.
use choerodon_cluster_agent.Base.{ℕ, ◌≡◌, Option, some, List, ◌∷◌, replicate}
use choerodon_cluster_agent.Base.Text.{Text}
use choerodon_cluster_agent.Agent.Loops.{Env, Repo, Loops}
use choerodon_cluster_agent.Agent.Loops.Turns.{Listening, State, goes_on, happen_all}

module _ (h : Text) (calls : List Listening) (d : List Text) where
  -- A call with the turn that waits and the environments that are left, before the others.
  abbrev at : Option Repo → List Env → Loops → State
  at waiting rest loops = record {
    loops = loops;
    calls = record { git_host = h; waiting = waiting; rest = rest } ∷ calls;
    disturbed = d;
  }

  abbrev Returns : Option Repo → List Env → Loops → Loops → Type 0
  Returns waiting rest loops loops' =
      (n : ℕ) × (happen_all (replicate n (goes_on 0)) (at waiting rest loops)
        ≡ some (record { loops = loops'; calls = calls; disturbed = d }))
