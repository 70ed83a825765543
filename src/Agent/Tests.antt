-- ===== src/Agent/Tests.antt =====
-- The agent's environments at concrete inputs.
use choerodon_cluster_agent.Agent.Managers.{is_exist}
use choerodon_cluster_agent.Agent.Ssh.{host_lines, init_maps}
use choerodon_cluster_agent.Agent.Environments.{watch_all}
use choerodon_cluster_agent.Agent.Environments.{create_all}
use choerodon_cluster_agent.Agent.Loops.{listen_interval}
use choerodon_cluster_agent.Agent.Environments.{create_namespace}
use choerodon_cluster_agent.Base.Dict.{erase}
use choerodon_cluster_agent.Base.Text.{index_of}
use choerodon_cluster_agent.Base.{
  ◌≡◌, refl, Bool, true, false, none, some, List, [], ◌∷◌, ◌++◌, contains, nat_eq, list_eq, ◌⊎◌,
}
use choerodon_cluster_agent.Base.Dict.{lookup, insert}
use choerodon_cluster_agent.Base.Text.{Text, codes}
use choerodon_cluster_agent.Agent.Namespaces.{
  contain, get_all, run, is_member, Nodup, adds, removes, sets, run-refines,
}
use choerodon_cluster_agent.Agent.Managing.{
  World, watches, unwatches, act_all, fresh_world, act_all-Inv,
}
use choerodon_cluster_agent.Agent.Managing
use choerodon_cluster_agent.Agent.Loops.{Env, Repo, replace_first, no_loops}
use choerodon_cluster_agent.Agent.Loops.Turns.{
  State, no_calls, Event, listens, goes_on, deletes, disconnects, happen, happen_all,
}
use choerodon_cluster_agent.Agent.Loops.Listening.{IsUnknown, happen_all-Inv}
use choerodon_cluster_agent.Agent.Loops.Keeping
use choerodon_cluster_agent.Agent.Loops.Starting.{namespaces_of, HasLoops}
use choerodon_cluster_agent.Agent.Environments.{
  Agent, Outside, Settings, absent, new_agent, add_env, delete_env, with_stop, init_agent,
  mark_initialized, forget_env, silent, deleted,
}
use choerodon_cluster_agent.Agent.Environments.Forgetting.{IsOther, forget_env-exact}
use choerodon_cluster_agent.Agent.Environments.Adding.{AreAlike, Works, IsNew, add_env-delete_env}
use choerodon_cluster_agent.Agent.Environments.Initialising.{IsManaged, init_agent-manages}
use choerodon_cluster_agent.Agent.Environments.Initialising

abbrev alpha : Text
alpha = codes "alpha"

abbrev beta : Text
beta = codes "beta"

abbrev env : Text → Env
env ns = record {
  namespace = ns;
  git_rsa_key = codes "key";
  git_url = codes "git@host:group/repo.git";
  releases = [];
}

abbrev host : Text
host = codes "host"

-- The host of the repository's address becomes the namespace, which the ssh configuration knows.
replaced :
    replace_first (codes "git@host:group/repo.git") host alpha ≡ codes "git@alpha:group/repo.git"
unfolding replace_first index_of nat_eq
replaced = refl

run-refines_example :
    (contain (run (removes alpha ∷ adds beta ∷ sets (alpha ∷ []) ∷ [])) beta
      ≡ is_member (removes alpha ∷ adds beta ∷ sets (alpha ∷ []) ∷ []) beta)
    × (contains (get_all (run (removes alpha ∷ adds beta ∷ sets (alpha ∷ []) ∷ []))) beta
        ≡ is_member (removes alpha ∷ adds beta ∷ sets (alpha ∷ []) ∷ []) beta)
    × Nodup (get_all (run (removes alpha ∷ adds beta ∷ sets (alpha ∷ []) ∷ [])))
run-refines_example = run-refines (removes alpha ∷ adds beta ∷ sets (alpha ∷ []) ∷ []) beta

act_all-Inv_example :
    (w : World) × (act_all
        (watches alpha ∷ watches alpha ∷ unwatches alpha ∷ watches alpha ∷ [])
        fresh_world
      ≡ some w)
    × Managing.Inv w
act_all-Inv_example =
    act_all-Inv (watches alpha ∷ watches alpha ∷ unwatches alpha ∷ watches alpha ∷ [])

-- Two environments that are listened to, one of which is deleted while the turn of the other waits.
abbrev beta_repo : Repo
beta_repo = record { origin = codes "git@beta:group/repo.git"; env = beta; id = 2 }

abbrev one_deleted : State
one_deleted = record {
  loops = record {
    stop_chans = (codes "sync_stop_chan", 0) ∷ (beta, 2) ∷ [];
    git_repos = (beta, beta_repo) ∷ [];
    next = 3;
    closed = [];
    asked = 1 ∷ [];
    started = (beta, 2) ∷ (alpha, 1) ∷ [];
    intervals = 1;
  };
  calls = record { git_host = host; waiting = none; rest = [] } ∷ [];
  disturbed = [];
}

abbrev deletes_one : List Event
deletes_one =
    listens host (env alpha ∷ env beta ∷ [])
    ∷ goes_on 0
    ∷ goes_on 0
    ∷ goes_on 0
    ∷ deletes alpha
    ∷ goes_on 0
    ∷ []

deletes_one_reached : happen_all deletes_one no_calls ≡ some one_deleted
unfolding happen_all lookup insert list_eq nat_eq erase replace_first index_of
deletes_one_reached = refl

happen_all-Inv_example :
    Keeping.Inv one_deleted
    × ((IsUnknown (deletes alpha) one_deleted × (happen (deletes alpha) one_deleted ≡ none))
        ⊎ ((s' : State) × (happen (deletes alpha) one_deleted ≡ some s') × Keeping.Inv s'))
happen_all-Inv_example = happen_all-Inv deletes_one (deletes alpha) one_deleted deletes_one_reached

-- After a disconnection the repository is still there. The environment is deleted while its next turn waits:
-- the loop that is started afterwards, of channel 3, is not told to stop, and the map has no channel for it.
abbrev deletes_waiting : List Event
deletes_waiting =
    listens host (env alpha ∷ [])
    ∷ goes_on 0
    ∷ goes_on 0
    ∷ goes_on 0
    ∷ disconnects
    ∷ listens host (env alpha ∷ [])
    ∷ goes_on 0
    ∷ deletes alpha
    ∷ goes_on 0
    ∷ []

left_running :
    happen_all deletes_waiting no_calls
    ≡ some (record {
      loops = record {
        stop_chans = (codes "sync_stop_chan", 2) ∷ [];
        git_repos =
            (alpha, record { origin = codes "git@alpha:group/repo.git"; env = alpha; id = 3 }) ∷ [];
        next = 4;
        closed = 1 ∷ 0 ∷ [];
        asked = 1 ∷ [];
        started = (alpha, 3) ∷ (alpha, 1) ∷ [];
        intervals = 2;
      };
      calls = record { git_host = host; waiting = none; rest = [] } ∷ [];
      disturbed = alpha ∷ [];
    })
unfolding happen_all lookup insert list_eq nat_eq erase replace_first index_of
left_running = refl

beta-IsOther : IsOther alpha (env beta)
unfolding list_eq nat_eq
beta-IsOther = refl

forget_env-exact_example :
    forget_env alpha ((env beta ∷ []) ++ env alpha ∷ env beta ∷ [])
    ≡ (env beta ∷ []) ++ env beta ∷ []
unfolding list_eq nat_eq
forget_env-exact_example =
    forget_env-exact alpha (env beta ∷ []) (env beta ∷ []) (env alpha) refl (beta-IsOther, tt)
      (beta-IsOther, tt)

-- An environment that is in the list twice is left in it once.
forgotten_twice :
    forget_env alpha (env alpha ∷ env beta ∷ env alpha ∷ []) ≡ env beta ∷ env alpha ∷ []
unfolding forget_env list_eq nat_eq
forgotten_twice = refl

abbrev settings : Settings
settings = record { restricted = false; agent_namespace = codes "agent"; skip_check = false }

-- A cluster that has no namespace and lets them be created, or not.
abbrev outside : Bool → Outside
outside creates = record {
  first_get = λ ns. absent;
  get_namespace = λ ns. absent;
  creates = λ ns. creates;
  writes_keys = λ envs. true;
  reads_config = true;
  makes_manager = λ ns. true;
}

works : Works (outside true) settings [] (env alpha)
unfolding list_eq nat_eq create_namespace
works = record {
  not_taken = refl;
  has_home = refl;
  has_keys = refl;
  has_config = refl;
  has_manager = refl;
}

is_new : IsNew new_agent (env alpha)
unfolding list_eq contain lookup listen_interval insert nat_eq
is_new = record {
  unlisted = tt;
  unmanaged = refl;
  unwatched = refl;
  fresh = refl;
  unloaded = refl;
  unlooped = refl;
  settled = refl;
}

add_env-delete_env_example :
    (t : Agent) × (u : Agent) × (add_env
        (outside true)
        settings
        (some (host, env alpha ∷ []))
        new_agent
      ≡ some (t, silent))
    × (delete_env (outside true) settings (some alpha) (with_stop t) ≡ some (u, deleted))
    × AreAlike u new_agent beta
add_env-delete_env_example =
    add_env-delete_env (outside true) settings host (env alpha) [] new_agent beta works is_new

init-Works : Initialising.Works (outside true) settings (env alpha ∷ env beta ∷ []) fresh_world
unfolding list_eq create_all watch_all is_exist lookup Managing.watch insert nat_eq
init-Works = record { has_keys = refl; has_homes = refl; has_config = refl; has_managers = refl }

new-HasLoops : HasLoops no_loops
unfolding lookup
new-HasLoops x c e o = absurd cc

init_agent-manages_example :
    (t : Agent) × (with_stop (
        mark_initialized
          (init_agent (outside true) settings (some (host, env alpha ∷ env beta ∷ [])) new_agent).0)
      ≡ t)
    × (t.initialized ≡ true)
    × (t.envs ≡ env alpha ∷ env beta ∷ [])
    × ((y : Text) → contain t.namespaces y ≡ contains (namespaces_of (env alpha ∷ env beta ∷ [])) y)
    × IsManaged t beta
unfolding list_eq nat_eq
init_agent-manages_example =
    init_agent-manages (outside true) settings host (env alpha ∷ env beta ∷ []) new_agent beta refl
      refl init-Works new-HasLoops refl refl

-- A host with a port, and the key of its environment.
ssh_host : host_lines (codes "git:22") ≡ codes "  HostName git\n  Port 22\n"
unfolding host_lines nat_eq
ssh_host = refl

-- Two hosts to rewrite and one address: the agent panics as it starts.
too_few_addresses : init_maps (codes "a,b") (codes "c") none ≡ none
unfolding init_maps nat_eq list_eq
too_few_addresses = refl
