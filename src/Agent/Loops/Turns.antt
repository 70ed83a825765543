-- ===== src/Agent/Loops/Turns.antt =====
-- pkg/gitops/gitops.go, `listenEnvs`, in goroutines of its own, whose turns wait for tokens while the
-- commands that delete environments and the loss of the connection go on.
use choerodon_cluster_agent.Base.{
  ℕ, Option, none, some, List, [], ◌∷◌, ◌++◌, contains, nat_eq, list_eq, if◌then◌else◌, pick,
}
use choerodon_cluster_agent.Base.Text.{Text}
use choerodon_cluster_agent.Agent.Loops.{
  Env, Repo, Loops, no_loops, listen_interval, begin_env, finish_env, delete_repo, close_loops,
}

-- A call of `listenEnvs`: the repository of the turn that waits for a token, if one does, and the
-- environments whose turns come after.
pub record Listening : Type 0 where
  pub git_host : Text
  pub waiting : Option Repo
  pub rest : List Env

-- The goroutines and the maps, the calls of `listenEnvs` that have not returned, and, for the statements,
-- the environments that were deleted, or had their connection lost, while a turn of theirs waited.
pub record State : Type 0 where
  pub loops : Loops
  pub calls : List Listening
  pub disturbed : List Text

abbrev pub no_calls : State
no_calls = record { loops = no_loops; calls = []; disturbed = [] }

-- What happens: a call of `listenEnvs`, the next step of the `i`th call, the deletion of an environment and
-- the loss of the connection.
pub data Event : Type 0 where
  listens : Text → List Env → Event
  goes_on : ℕ → Event
  deletes : Text → Event
  disconnects : Event

-- The next step of a call, and what is left of it: a turn that waits gets its token, a new turn begins, or
-- the call returns.
unfoldable pub go_on : Text → Option Repo → List Env → Loops → Loops × List Listening
unfolding begin_env finish_env
go_on git_host (some r) rest s =
    (finish_env r s, record { git_host = git_host; waiting = none; rest = rest } ∷ [])
go_on git_host none [] s = (s, [])
go_on git_host none (e ∷ rest) s =
    let (s', waiting) = begin_env git_host e s in
    (s', record { git_host = git_host; waiting = waiting; rest = rest } ∷ [])

-- The environments whose turns wait.
unfoldable pub waiting_envs : List Listening → List Text
waiting_envs [] = []
waiting_envs (l ∷ ls) =
    let others = waiting_envs ls in elim l.waiting [ none ↦ others | some r ↦ r.env ∷ others ]

-- A step that does not happen in a state, and a panic, are `none`.
unfoldable pub happen : Event → State → Option State
unfolding listen_interval go_on pick delete_repo close_loops waiting_envs
happen (listens git_host envs) s = some (record s {
  loops = listen_interval s.loops;
  calls = record { git_host = git_host; waiting = none; rest = envs } ∷ s.calls;
})
happen (goes_on i) s = elim (pick i s.calls) [
  | none ↦ none
  | some (l, others) ↦
      let (loops, left) = go_on l.git_host l.waiting l.rest s.loops in
      some (record s { loops = loops; calls = left ++ others })
]
happen (deletes ns) s = elim (delete_repo ns s.loops) [
  | none ↦ none
  | some loops ↦ some (record s {
    loops = loops;
    disturbed = if contains (waiting_envs s.calls) ns then ns ∷ s.disturbed else s.disturbed;
  })
]
happen disconnects s = elim (close_loops s.loops) [
  | none ↦ none
  | some loops ↦ some (record s { loops = loops; disturbed = waiting_envs s.calls ++ s.disturbed })
]

unfoldable pub happen_all : List Event → State → Option State
unfolding happen
happen_all [] s = some s
happen_all (e ∷ events) s = elim (happen e s) [ none ↦ none | some s' ↦ happen_all events s' ]
