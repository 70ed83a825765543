-- ===== src/Agent/Environments/Initialising.antt =====
-- pkg/command/agent/agent.go, `InitAgent`: what it sets up.
use choerodon_cluster_agent.Base.{
  ◌+◌, ◌≡◌, ◌∙◌, refl, ap, true, false, ◌||◌, some, List, [], ◌∷◌, ◌++◌, arith, ◌==◌, contains,
  nat_eq, list_eq, if◌then◌else◌, ◌⊎◌, inl, inr,
}
use choerodon_cluster_agent.Base.Dict.{lookup-insert}
use choerodon_cluster_agent.Base.Text.{Text}
use choerodon_cluster_agent.Agent.Namespaces.{contain, set, contain-set}
use choerodon_cluster_agent.Agent.Managers.{is_exist, add_stop}
use choerodon_cluster_agent.Agent.Managing.{World, watch}
use choerodon_cluster_agent.Agent.Loops.{Env, listen_envs, sync_interval_key}
use choerodon_cluster_agent.Agent.Loops.Starting.{
  namespaces_of, HasLoops, IsLooped, listen_envs-IsLooped,
}
use choerodon_cluster_agent.Agent.Environments.{
  Outside, Settings, Agent, silent, cluster_info, create_all, watch_all, initialise, init_agent,
  mark_initialized, with_stop,
}

watched-watch :
    (x ns : Text) (w : World)
    → is_exist (watch ns w).managers.mgrs x ≡ (x == ns || is_exist w.managers.mgrs x)
unfolding watch is_exist add_stop
watched-watch x ns w = ground (arith, lookup-insert x ns (some w.next) w.managers.mgrs)

same-watched :
    (x y : Text) (w : World)
    → ((x == y) ≡ false) ⊎ (is_exist w.managers.mgrs x ≡ is_exist w.managers.mgrs y)
same-watched x y w = elim (list_eq.dec x y) [
  | yes p ↦ inr (ap (λ z. is_exist w.managers.mgrs z) p)
  | no n ↦ inl (ground arith)
]

watched-watch_all :
    (o : Outside) (c : Settings) (envs : List Env) (w w' : World) (x : Text)
    → watch_all o c envs w ≡ (w', true)
    → is_exist w'.managers.mgrs x ≡ (contains (namespaces_of envs) x || is_exist w.managers.mgrs x)
unfolding watch_all
watched-watch_all o c [] w w' x h = cc
watched-watch_all o c (e ∷ envs) w w' x h = ground (
  arith,
  watched-watch_all o c envs w w' x,
  watched-watch_all o c envs (watch e.namespace w) w' x,
  watched-watch x e.namespace w,
  same-watched x e.namespace w,
)

-- What `InitAgent` needs of the world outside to get through.
pub record Works (o : Outside) (c : Settings) (envs : List Env) (w : World) : Type 0 where
  pub has_keys : o.writes_keys envs ≡ true
  pub has_homes : create_all o c envs ≡ true
  pub has_config : o.reads_config ≡ true
  pub has_managers : (watch_all o c envs w).1 ≡ true

-- The namespace is known in each of the agent's parts: it is a member, it has a manager, and a loop was
-- started with the stop channel that the map has for it.
pub record IsManaged (s : Agent) (x : Text) : Type 0 where
  pub member : contain s.namespaces x ≡ true
  pub watched : is_exist s.world.managers.mgrs x ≡ true
  pub looped : IsLooped s.loops x

abbrev initialised : Text → List Env → World → Agent → Agent
initialised git_host envs world s = record s {
  namespaces = set (namespaces_of envs) s.namespaces;
  resyncs = s.resyncs + 1;
  world = world;
  envs = envs;
  pending = s.pending ++ (git_host, envs) ∷ [];
}

init_agent-initialised :
    (o : Outside) (c : Settings) (h : Text) (envs : List Env) (s : Agent)
    → s.initialized ≡ false
    → Works o c envs s.world
    → init_agent o c (some (h, envs)) s ≡ (
      initialised h envs (watch_all o c envs s.world).0 s,
      if c.restricted then silent else cluster_info,
    )
unfolding init_agent initialise
init_agent-initialised o c h envs s i w =
    rw (init_agent, initialise, i, w.has_keys, w.has_homes, w.has_config, w.has_managers)

with_stop-initialised :
    (h : Text) (envs : List Env) (world : World) (s : Agent)
    → s.pending ≡ []
    → with_stop (mark_initialized (initialised h envs world s))
      ≡ record (initialised h envs world s) {
        initialized = true;
        loops = listen_envs h envs s.loops;
        pending = [];
        git_running = true;
      }
unfolding with_stop
with_stop-initialised h envs world s n = rw (n, with_stop)

-- Let the agent not be initialised, have no call of `WithStop` that has not run, and have loops for all the
-- stop channels in its map but that of the interval loop. When `InitAgent` gets through and its goroutine has
-- run, its turns uninterrupted, the agent is initialised, its environments are those of the command, its
-- namespaces are theirs and no others, and each of them but one named like the key of the interval loop
-- is managed: it is a member, has a manager, and a loop was started with the stop channel that the map
-- has for it.
pub init_agent-manages :
    (o : Outside) (c : Settings) (h : Text) (envs : List Env) (s : Agent) (x : Text)
    → s.initialized ≡ false
    → s.pending ≡ []
    → Works o c envs s.world
    → HasLoops s.loops
    → (x == sync_interval_key) ≡ false
    → contains (namespaces_of envs) x ≡ true
    → (t : Agent) × (with_stop (mark_initialized (init_agent o c (some (h, envs)) s).0) ≡ t)
      × (t.initialized ≡ true)
      × (t.envs ≡ envs)
      × ((y : Text) → contain t.namespaces y ≡ contains (namespaces_of envs) y)
      × IsManaged t x
init_agent-manages o c h envs s x i n w l k m =
    let world = (watch_all o c envs s.world).0 in
    (
      record (initialised h envs world s) {
        initialized = true;
        loops = listen_envs h envs s.loops;
        pending = [];
        git_running = true;
      },
      rw (init_agent-initialised o c h envs s i w) (with_stop-initialised h envs world s n),
      refl,
      refl,
      λ y. contain-set y (namespaces_of envs) s.namespaces,
      record {
        member = contain-set x (namespaces_of envs) s.namespaces ∙ m;
        watched = ground (arith, watched-watch_all o c envs s.world world x, w.has_managers);
        looped = listen_envs-IsLooped h envs s.loops x l k m;
      },
    )
