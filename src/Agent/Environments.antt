-- ===== src/Agent/Environments.antt =====
-- pkg/command/agent: the commands that add and delete environments and initialise the agent
-- (agent_env.go and agent.go), as functions on the agent's state. The answers of the API server, the
-- file system and the controller library are a record of their outcomes. A panic is `none`.
pub mod Forgetting
pub mod Adding
pub mod Initialising
use choerodon_cluster_agent.Base.{
  ℕ, zero, suc, ◌+◌, ◌-◌, Bool, true, false, not, ◌&&◌, Option, none, some, List, [], ◌∷◌, ◌++◌,
  ◌==◌, nat_eq, list_eq, if◌then◌else◌, length, take, drop, map,
}
use choerodon_cluster_agent.Base.Text.{Text, codes}
use choerodon_cluster_agent.Agent.Namespaces.{Namespaces, add, remove, set, new_namespaces}
use choerodon_cluster_agent.Agent.Managers.{is_exist}
use choerodon_cluster_agent.Agent.Managing.{World, watch, unwatch, fresh_world}
use choerodon_cluster_agent.Agent.Loops.{Env, Loops, listen_envs, delete_repo, no_loops}

-- `Get` of a namespace: it exists, it is not found, or there is another error.
pub data Lookup : Type 0 where
  found absent unreachable : Lookup

-- The outcomes of the calls that leave the agent: the `Get` of a namespace in the client's `GetNamespace`,
-- that in `createNamespace` and its `Create`, `PrepareSSHKeys`, `GetRESTConfig` and `operator.New`.
pub record Outside : Type 0 where
  pub first_get : Text → Lookup
  pub get_namespace : Text → Lookup
  pub creates : Text → Bool
  pub writes_keys : List Env → Bool
  pub reads_config : Bool
  pub makes_manager : Text → Bool

-- The client's `GetNamespace`: whether it returns no error, which it does for any error but that the
-- namespace is not found.
abbrev pub finds_namespace : Lookup → Bool
finds_namespace found = true
finds_namespace absent = false
finds_namespace unreachable = true

-- `RestrictedModel`, `AgentNamespace` and `SKIP_CHECK_EXIST_NAMESPACE`.
pub record Settings : Type 0 where
  pub restricted : Bool
  pub agent_namespace : Text
  pub skip_check : Bool

-- The types of the packets that report an error; `own_type` is that of the command.
pub data Failure : Type 0 where
  env_create_failed env_delete init_agent_failed own_type : Failure

-- The response of a command: none, an error, `EnvDeleteSucceed`, or the answer of `getClusterInfo`.
pub data Response : Type 0 where
  silent deleted cluster_info : Response
  failed : Failure → Response

-- `AgentInitOps.Envs`, the namespaces, the managers, the git loops, the calls of `WithStop` that have
-- not run yet, the calls of `ReSync`, the namespaces that were deleted, `Initialized` and `GitRunning`.
pub record Agent : Type 0 where
  pub envs : List Env
  pub namespaces : Namespaces
  pub world : World
  pub loops : Loops
  pub pending : List (Text × List Env)
  pub resyncs : ℕ
  pub deleted_namespaces : List Text
  pub initialized : Bool
  pub git_running : Bool

abbrev pub new_agent : Agent
new_agent = record {
  envs = [];
  namespaces = new_namespaces;
  world = fresh_world;
  loops = no_loops;
  pending = [];
  resyncs = 0;
  deleted_namespaces = [];
  initialized = false;
  git_running = false;
}

-- `append(envs[0:i], envs[i+1:]...)` in place: the cells behind the removed one move down, and the last
-- cell keeps its content.
unfoldable pub shift_down : ℕ → List Env → List Env
shift_down i cells = take i cells ++ (drop (suc i) cells ++ drop (length cells - 1) cells)

-- The loop of `DeleteEnv` from the cell `i` on, for `k` more turns; the cells are read as the earlier
-- turns have left them. `new_envs` is `newEnvs`.
unfoldable pub forget_loop : Text → ℕ → ℕ → List Env → List Env → List Env
unfolding shift_down
forget_loop ns i zero cells new_envs = new_envs
forget_loop ns i (suc k) cells new_envs = elim (drop i cells) [
  | [] ↦ new_envs
  | e ∷ _ ↦
      let moved = shift_down i cells in
      let shifted = forget_loop ns (suc i) k moved (take (length cells - 1) moved) in
      let same = forget_loop ns (suc i) k cells new_envs in
      if e.namespace == ns then shifted else same
]

unfoldable pub forget_env : Text → List Env → List Env
unfolding forget_loop
forget_env ns envs = forget_loop ns 0 (length envs) envs []

module _ (o : Outside) (c : Settings) where
  -- `createNamespace`: whether it returns no error.
  unfoldable pub create_namespace : Text → Bool
  create_namespace ns = elim (o.get_namespace ns) [
    | found ↦ true
    | absent ↦ o.creates ns
    | unreachable ↦ false
  ]

  -- `AddEnv` once the environment is in the list and its namespace exists.
  unfoldable pub install_env : Text → Env → Agent → Agent × Response
  install_env git_host e s =
      if not (o.writes_keys s.envs)
      then (s, failed init_agent_failed)
      else (let synced = record s { resyncs = s.resyncs + 1 } in
          if not o.reads_config
          then (synced, failed init_agent_failed)
          else if not (o.makes_manager e.namespace)
          then (synced, failed init_agent_failed)
          else (
            record synced {
              world = watch e.namespace s.world;
              pending = s.pending ++ (git_host, e ∷ []) ∷ [];
            },
            silent,
          ))

  abbrev pub is_taken : Text → Bool
  is_taken ns =
      finds_namespace (o.first_get ns)
      && not (ns == codes "choerodon")
      && not (ns == c.agent_namespace)
      && not c.restricted

  -- `AddEnv`, with the payload as it is decoded: an error, or the git host and the environments. With no
  -- error and no environment the response is built from a nil error.
  unfoldable pub add_env : Option (Text × List Env) → Agent → Option (Agent × Response)
  unfolding install_env create_namespace
  add_env none s = some (s, failed env_create_failed)
  add_env (some (git_host, [])) s = none
  add_env (some (git_host, e ∷ _)) s =
      if is_taken e.namespace
      then some (s, failed env_create_failed)
      else (let listed = record s {
        envs = s.envs ++ e ∷ [];
        namespaces = add e.namespace s.namespaces;
      } in
          if not (e.namespace == c.agent_namespace) && not (create_namespace e.namespace)
          then some (listed, failed own_type)
          else some (install_env git_host e listed))

  -- `DeleteEnv`, with the payload as it is decoded. What comes of deleting the releases and the namespace is
  -- only logged.
  unfoldable pub delete_env : Option Text → Agent → Option (Agent × Response)
  unfolding forget_env
  delete_env none s = some (s, failed env_delete)
  delete_env (some ns) s = elim (unwatch ns s.world) [
    | none ↦ none
    | some world ↦ elim (delete_repo ns s.loops) [
      | none ↦ none
      | some loops ↦ some (
        record s {
          envs = forget_env ns s.envs;
          namespaces = remove ns s.namespaces;
          world = world;
          loops = loops;
          deleted_namespaces =
              if c.skip_check then s.deleted_namespaces else ns ∷ s.deleted_namespaces;
        },
        deleted,
      )
    ]
  ]

  -- The loop of `InitAgent` over the namespaces of the environments.
  unfoldable pub create_all : List Env → Bool
  unfolding create_namespace
  create_all [] = true
  create_all (e ∷ envs) = create_namespace e.namespace && create_all envs

  -- The loop of `InitAgent` that starts the managers; it ends at the first that cannot be made.
  unfoldable pub watch_all : List Env → World → World × Bool
  watch_all [] w = (w, true)
  watch_all (e ∷ envs) w =
      let here = watch_all envs w in
      let next = watch_all envs (watch e.namespace w) in
      if is_exist w.managers.mgrs e.namespace
      then here
      else if o.makes_manager e.namespace
      then next
      else (w, false)

  -- `InitAgent` behind its guard, with the payload as it is decoded. The size of `GitRepoConcurrencySyncChan`
  -- and the version of the certificate manager, which it sets too, are left out.
  unfoldable pub initialise : Option (Text × List Env) → Agent → Agent × Response
  unfolding create_all watch_all
  initialise none s = (s, failed init_agent_failed)
  initialise (some (git_host, envs)) s =
      if not (o.writes_keys envs)
      then (s, failed init_agent_failed)
      else if not (create_all envs)
      then (s, failed own_type)
      else (let named = record s {
        namespaces = set (map (λ e. e.namespace) envs) s.namespaces;
        resyncs = s.resyncs + 1;
      } in
          if not o.reads_config
          then (named, failed init_agent_failed)
          else (let (world, made) = watch_all envs s.world in
              let watched = record named { world = world } in
              if not made then (watched, failed init_agent_failed) else (
                record watched { envs = envs; pending = s.pending ++ (git_host, envs) ∷ [] },
                if c.restricted then silent else cluster_info,
              )))

  -- `InitAgent` between `InitLock.Lock` and the `Unlock` of the deferred function.
  unfoldable pub init_agent : Option (Text × List Env) → Agent → Agent × Response
  unfolding initialise
  init_agent payload s = if s.initialized then (s, cluster_info) else initialise payload s

-- The rest of the deferred function, after the `Unlock`, whatever came of the command: the next `InitAgent`
-- may have passed the lock by then, and have read the flag.
abbrev pub mark_initialized : Agent → Agent
mark_initialized s = record s { initialized = true }

-- `WithStop` in its goroutine.
unfoldable pub with_stop : Agent → Agent
with_stop s = elim s.pending [
  | [] ↦ s
  | (git_host, envs) ∷ later ↦ record s {
    loops = listen_envs git_host envs s.loops;
    pending = later;
    git_running = true;
  }
]
