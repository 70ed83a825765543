-- ===== src/Agent/Loops.antt =====
-- pkg/gitops/gitops.go: how `listenEnvs` starts the goroutines of an environment, and what stops them,
-- in `DeleteEnv` (pkg/command/agent/agent_env.go) and in the loop of pkg/websocket/client.go. A channel
-- is its number; a repository has that of the stop channel made in the same turn. A turn
-- waits for a token of `GitRepoConcurrencySyncChan` between its two halves, in which other handlers may
-- run: Loops/Listening interleaves them. The random delay of `Start` is left out.
pub mod Channels
pub mod Held
pub mod Keeping
pub mod Turns
pub mod Uninterrupted
pub mod Listening
pub mod Starting
use choerodon_cluster_agent.Base.{
  ℕ, suc, ◌+◌, Bool, true, false, Option, none, some, List, [], ◌∷◌, ◌++◌, ◌==◌, contains, nat_eq,
  list_eq, if◌then◌else◌, length, take, drop,
}
use choerodon_cluster_agent.Base.Dict.{Dict, lookup, insert, erase}
use choerodon_cluster_agent.Base.Text.{Text, codes, index_of}
use choerodon_cluster_agent.Agent.Managers.{close}

-- The fields of `EnvParas` that the agent reads.
pub record Env : Type 0 where
  pub namespace : Text
  pub git_rsa_key : Text
  pub git_url : Text
  pub releases : List Text

-- `git.NewRepo`, as far as the agent tells repositories apart.
pub record Repo : Type 0 where
  pub origin : Text
  pub env : Text
  pub id : ℕ

-- `GitStopChanMap`, the repositories, the number of the next channel, the channels that have been
-- closed, the repositories whose `SyncChan` and `RefreshChan` hold a value, and what has been started:
-- each loop with its environment and its stop channel, and the number of interval loops.
pub record Loops : Type 0 where
  pub stop_chans : Dict Text ℕ
  pub git_repos : Dict Text Repo
  pub next : ℕ
  pub closed : List ℕ
  pub asked : List ℕ
  pub started : List (Text × ℕ)
  pub intervals : ℕ

abbrev pub no_loops : Loops
no_loops = record {
  stop_chans = [];
  git_repos = [];
  next = 0;
  closed = [];
  asked = [];
  started = [];
  intervals = 0;
}

abbrev pub sync_interval_key : Text
sync_interval_key = codes "sync_stop_chan"

-- `strings.Replace(s, old, new, 1)`
unfoldable pub replace_first : Text → Text → Text → Text
replace_first s old new = elim (index_of s old) [
  | none ↦ s
  | some i ↦ take i s ++ (new ++ drop (i + length old) s)
]

-- The interval loop, unless there is one.
unfoldable pub listen_interval : Loops → Loops
listen_interval s = elim (lookup sync_interval_key s.stop_chans) [
  | some _ ↦ s
  | none ↦ record s {
    stop_chans = insert sync_interval_key s.next s.stop_chans;
    next = s.next + 1;
    intervals = s.intervals + 1;
  }
]

-- The turn of the loop of `listenEnvs` for an environment up to its wait for a token: the stop channel is in
-- the map, and the repository is made. There is no turn for an environment with a stop channel.
unfoldable pub begin_env : Text → Env → Loops → Loops × Option Repo
begin_env git_host e s = elim (lookup e.namespace s.stop_chans) [
  | some _ ↦ (s, none)
  | none ↦ (
    record s { stop_chans = insert e.namespace s.next s.stop_chans; next = s.next + 1 },
    some (record {
      origin = replace_first e.git_url git_host e.namespace;
      env = e.namespace;
      id = s.next;
    }),
  )
]

-- The rest of the turn, once there is a token: the repository is in its map, and the loop is started.
unfoldable pub finish_env : Repo → Loops → Loops
finish_env r s = record s {
  git_repos = insert r.env r s.git_repos;
  started = (r.env, r.id) ∷ s.started;
}

unfoldable pub finish_turn : Loops × Option Repo → Loops
unfolding finish_env
finish_turn (s, none) = s
finish_turn (s, some r) = finish_env r s

-- The body of the loop of `listenEnvs`, when nothing else happens while it waits.
unfoldable pub listen_env : Text → Env → Loops → Loops
unfolding begin_env finish_turn
listen_env git_host e s = finish_turn (begin_env git_host e s)

unfoldable pub listen_each : Text → List Env → Loops → Loops
unfolding listen_env
listen_each git_host [] s = s
listen_each git_host (e ∷ envs) s = listen_each git_host envs (listen_env git_host e s)

-- `listenEnvs`, when nothing else happens while it waits.
unfoldable pub listen_envs : Text → List Env → Loops → Loops
unfolding listen_interval listen_each
listen_envs git_host envs s = listen_each git_host envs (listen_interval s)

-- The part of `DeleteEnv` about git: the repository's channels get a value, then the repository and the
-- stop channel are forgotten. A namespace without a repository is a nil pointer, a panic.
unfoldable pub delete_repo : Text → Loops → Option Loops
delete_repo ns s = elim (lookup ns s.git_repos) [
  | none ↦ none
  | some r ↦ some (record s {
    asked = r.id ∷ s.asked;
    git_repos = erase ns s.git_repos;
    stop_chans = erase ns s.stop_chans;
  })
]

-- The loop over `GitStopChanMap` when the connection is lost.
unfoldable pub close_each : Dict Text ℕ → List ℕ → Option (List ℕ)
unfolding close
close_each [] closed = some closed
close_each ((_, c) ∷ rest) closed = elim (close c closed) [
  | none ↦ none
  | some closed' ↦ close_each rest closed'
]

unfoldable pub close_loops : Loops → Option Loops
unfolding close_each
close_loops s = elim (close_each s.stop_chans s.closed) [
  | none ↦ none
  | some closed ↦ some (record s { stop_chans = []; closed = closed })
]
