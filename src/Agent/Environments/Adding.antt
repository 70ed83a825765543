-- ===== src/Agent/Environments/Adding.antt =====
-- pkg/command/agent/agent_env.go, `AddEnv`, and `DeleteEnv` after it.
use mathlib.Core.List.{append-nil}
use choerodon_cluster_agent.Base.{
  ◌+◌, ◌≡◌, ◌∙◌, refl, true, false, not, ◌&&◌, none, some, List, [], ◌∷◌, ◌++◌, arith, ◌==◌,
  contains, nat_eq, list_eq, if◌then◌else◌, All,
}
use choerodon_cluster_agent.Base.Dict.{lookup, insert, erase, lookup-insert, lookup-erase}
use choerodon_cluster_agent.Base.Text.{Text}
use choerodon_cluster_agent.Agent.Namespaces.{add, remove, contain, contain-add, contain-remove}
use choerodon_cluster_agent.Agent.Managing.{
  World, watch, unwatch, added, watch-absent, unwatch-present, removed,
}
use choerodon_cluster_agent.Agent.Loops.{
  Env, Loops, listen_env, listen_envs, listen_each, listen_interval, delete_repo,
}
use choerodon_cluster_agent.Agent.Loops.Channels.{
  delete_repo-present, listen_env-new, repo_of, with_channel,
}
use choerodon_cluster_agent.Agent.Environments.{
  Outside, Settings, Agent, silent, deleted, failed, own_type, is_taken, create_namespace, add_env,
  install_env, delete_env, with_stop, forget_env,
}
use choerodon_cluster_agent.Agent.Environments.Forgetting.{IsOther, forget_env-exact}

-- What `AddEnv` needs of the world outside to get through.
pub record Works (o : Outside) (c : Settings) (envs : List Env) (e : Env) : Type 0 where
  pub not_taken : is_taken o c e.namespace ≡ false
  pub has_home :
      not (e.namespace == c.agent_namespace) && not (create_namespace o c e.namespace) ≡ false
  pub has_keys : o.writes_keys (envs ++ e ∷ []) ≡ true
  pub has_config : o.reads_config ≡ true
  pub has_manager : o.makes_manager e.namespace ≡ true

-- The agent does not know the environment yet.
pub record IsNew (s : Agent) (e : Env) : Type 0 where
  pub unlisted : All (IsOther e.namespace) s.envs
  pub unmanaged : contain s.namespaces e.namespace ≡ false
  pub unwatched : lookup e.namespace s.world.managers.mgrs ≡ none
  pub fresh : contains s.world.managers.closed s.world.next ≡ false
  pub unloaded : lookup e.namespace s.loops.git_repos ≡ none
  pub unlooped : lookup e.namespace (listen_interval s.loops).stop_chans ≡ none
  pub settled : s.pending ≡ []

-- The agent after `AddEnv` and after the goroutine that it starts.
abbrev extended : Text → Env → Agent → Agent
extended git_host e s = record s {
  envs = s.envs ++ e ∷ [];
  namespaces = add e.namespace s.namespaces;
  world = watch e.namespace s.world;
  pending = s.pending ++ (git_host, e ∷ []) ∷ [];
  resyncs = s.resyncs + 1;
}

abbrev started : Text → Env → Agent → Agent
started git_host e s = record s {
  envs = s.envs ++ e ∷ [];
  namespaces = add e.namespace s.namespaces;
  world = added e.namespace s.world;
  loops = listen_env git_host e (listen_interval s.loops);
  pending = [];
  resyncs = s.resyncs + 1;
  git_running = true;
}

add_env-extended :
    (o : Outside) (c : Settings) (h : Text) (e : Env) (envs : List Env) (s : Agent)
    → Works o c s.envs e
    → add_env o c (some (h, e ∷ envs)) s ≡ some (extended h e s, silent)
unfolding add_env install_env
add_env-extended o c h e envs s w =
    rw (w.not_taken, w.has_home, w.has_keys, w.has_config, w.has_manager)

with_stop-extended :
    (h : Text) (e : Env) (s : Agent) → IsNew s e → with_stop (extended h e s) ≡ started h e s
unfolding with_stop listen_envs listen_each
with_stop-extended h e s n = rw (n.settled, watch-absent e.namespace s.world n.unwatched)

-- The loops after the environment's have been started and stopped again.
abbrev stopped_loops : Text → Env → Loops → Loops
stopped_loops git_host e l = record l {
  stop_chans = erase e.namespace (insert e.namespace l.next l.stop_chans);
  git_repos = erase e.namespace (insert e.namespace (repo_of git_host e l) l.git_repos);
  next = l.next + 1;
  asked = l.next ∷ l.asked;
  started = (e.namespace, l.next) ∷ l.started;
}

delete_repo-listen_env :
    (h : Text) (e : Env) (l : Loops)
    → lookup e.namespace l.stop_chans ≡ none
    → delete_repo e.namespace (listen_env h e l) ≡ some (stopped_loops h e l)
delete_repo-listen_env h e l n =
    let repos = insert e.namespace (repo_of h e l) l.git_repos in
    let there : lookup e.namespace repos ≡ some (repo_of h e l) =
      ground (arith, lookup-insert e.namespace e.namespace (repo_of h e l) l.git_repos) in
    rw (listen_env-new h e l n) (
      delete_repo-present e.namespace
        (record (with_channel e.namespace repos l) { started = (e.namespace, l.next) ∷ l.started })
        (repo_of h e l) there)

unwatch-added :
    (ns : Text) (w : World)
    → contains w.managers.closed w.next ≡ false
    → unwatch ns (added ns w) ≡ some (removed ns w.next (added ns w))
unwatch-added ns w f =
    unwatch-present ns (added ns w) w.next
      (ground (arith, lookup-insert ns ns (some w.next) w.managers.mgrs)) f

-- The agent after the deletion.
abbrev restored : Settings → Text → Env → Agent → Agent
restored c git_host e s = record s {
  envs = forget_env e.namespace (s.envs ++ e ∷ []);
  namespaces = remove e.namespace (add e.namespace s.namespaces);
  world = removed e.namespace s.world.next (added e.namespace s.world);
  loops = stopped_loops git_host e (listen_interval s.loops);
  pending = [];
  resyncs = s.resyncs + 1;
  deleted_namespaces =
      if c.skip_check then s.deleted_namespaces else e.namespace ∷ s.deleted_namespaces;
  git_running = true;
}

delete_env-started :
    (c : Settings) (o : Outside) (h : Text) (e : Env) (s : Agent)
    → IsNew s e
    → delete_env o c (some e.namespace) (started h e s) ≡ some (restored c h e s, deleted)
unfolding delete_env
delete_env-started c o h e s n = rw (
  delete_env,
  unwatch-added e.namespace s.world n.fresh,
  delete_repo-listen_env h e (listen_interval s.loops) n.unlooped,
)

-- Two agents with the same environments, members, managers, repositories and stop channels. The second
-- is compared with the interval loop started.
pub record AreAlike (t s : Agent) (x : Text) : Type 0 where
  pub envs : t.envs ≡ s.envs
  pub namespaces : contain t.namespaces x ≡ contain s.namespaces x
  pub managers : lookup x t.world.managers.mgrs ≡ lookup x s.world.managers.mgrs
  pub repos : lookup x t.loops.git_repos ≡ lookup x s.loops.git_repos
  pub stop_chans : lookup x t.loops.stop_chans ≡ lookup x (listen_interval s.loops).stop_chans

interval-repos : (l : Loops) → (listen_interval l).git_repos ≡ l.git_repos
unfolding listen_interval
interval-repos l = ground arith

restored-alike :
    (c : Settings) (h : Text) (e : Env) (s : Agent) (x : Text)
    → IsNew s e
    → AreAlike (restored c h e s) s x
restored-alike c h e s x n =
    let ns = e.namespace in
    let l = listen_interval s.loops in
    let repo = repo_of h e l in
    record {
      envs = forget_env-exact ns s.envs [] e (ground arith) n.unlisted tt ∙ append-nil s.envs;
      namespaces = ground (
        arith,
        contain-remove x ns (add ns s.namespaces),
        contain-add x ns s.namespaces,
        n.unmanaged,
      );
      managers = ground (
        arith,
        lookup-erase x ns (insert ns (some s.world.next) s.world.managers.mgrs),
        lookup-insert x ns (some s.world.next) s.world.managers.mgrs,
        n.unwatched,
      );
      repos = ground (
        arith,
        lookup-erase x ns (insert ns repo l.git_repos),
        lookup-insert x ns repo l.git_repos,
        interval-repos s.loops,
        n.unloaded,
      );
      stop_chans = ground (
        arith,
        lookup-erase x ns (insert ns l.next l.stop_chans),
        lookup-insert x ns l.next l.stop_chans,
        n.unlooped,
      );
    }

-- An environment that is new to the agent and that `AddEnv` can add is added without a response; deleted
-- once its goroutine has run, it leaves the agent with the environments, namespaces, managers,
-- repositories and stop channels that it had before, and the interval loop.
pub add_env-delete_env :
    (o : Outside) (c : Settings) (h : Text) (e : Env) (envs : List Env) (s : Agent) (x : Text)
    → Works o c s.envs e
    → IsNew s e
    → (t : Agent) × (u : Agent) × (add_env o c (some (h, e ∷ envs)) s ≡ some (t, silent))
      × (delete_env o c (some e.namespace) (with_stop t) ≡ some (u, deleted))
      × AreAlike u s x
add_env-delete_env o c h e envs s x w n = (
  extended h e s,
  restored c h e s,
  add_env-extended o c h e envs s w,
  rw (with_stop-extended h e s n) (delete_env-started c o h e s n),
  restored-alike c h e s x n,
)

-- If the namespace of an environment cannot be made, `AddEnv` reports an error, and yet has the
-- environment in the list and the namespace among those of the agent.
add_env-leaves :
    (o : Outside) (c : Settings) (h : Text) (e : Env) (envs : List Env) (s : Agent)
    → is_taken o c e.namespace ≡ false
    → (e.namespace == c.agent_namespace) ≡ false
    → create_namespace o c e.namespace ≡ false
    → (t : Agent) × (add_env o c (some (h, e ∷ envs)) s ≡ some (t, failed own_type))
      × (t.envs ≡ s.envs ++ e ∷ [])
      × (contain t.namespaces e.namespace ≡ true)
unfolding add_env
add_env-leaves o c h e envs s taken other fails = (
  record s { envs = s.envs ++ e ∷ []; namespaces = add e.namespace s.namespaces },
  rw (taken, other, fails),
  refl,
  ground (arith, contain-add e.namespace e.namespace s.namespaces),
)
