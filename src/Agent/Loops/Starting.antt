-- ===== src/Agent/Loops/Starting.antt =====
-- pkg/gitops/gitops.go, `listenEnvs`: what it starts.
use choerodon_cluster_agent.Base.{
  ℕ, ◌≡◌, refl, Bool, true, false, none, some, List, [], ◌∷◌, arith, ◌==◌, contains, nat_eq,
  list_eq, map, ◌||◌, ◌&&◌, Option-cases, inl, inr,
}
use choerodon_cluster_agent.Base.Dict.{lookup, lookup-insert}
use choerodon_cluster_agent.Base.Text.{Text}
use choerodon_cluster_agent.Agent.Loops.{
  Loops, Env, listen_env, listen_each, listen_envs, listen_interval, sync_interval_key,
}

-- Whether the map has a stop channel under the key.
unfoldable pub has_channel : Loops → Text → Bool
has_channel s ns = elim (lookup ns s.stop_chans) [ none ↦ false | some _ ↦ true ]

abbrev pub namespaces_of : List Env → List Text
namespaces_of envs = map (λ e. e.namespace) envs

channel-listen_env :
    (h : Text) (e : Env) (s : Loops) (x : Text)
    → has_channel (listen_env h e s) x ≡ (x == e.namespace || has_channel s x)
unfolding has_channel listen_env
channel-listen_env h e s x = ground (arith, lookup-insert x e.namespace s.next s.stop_chans)

channel-interval :
    (s : Loops) (x : Text)
    → has_channel (listen_interval s) x ≡ (x == sync_interval_key || has_channel s x)
unfolding has_channel listen_interval
channel-interval s x = ground (arith, lookup-insert x sync_interval_key s.next s.stop_chans)

channel-listen_each :
    (h : Text) (envs : List Env) (s : Loops) (x : Text)
    → has_channel (listen_each h envs s) x ≡ (contains (namespaces_of envs) x || has_channel s x)
unfolding listen_each
channel-listen_each h [] s x = refl
channel-listen_each h (e ∷ envs) s x =
    ground (arith, channel-listen_each h envs (listen_env h e s) x, channel-listen_env h e s x)

channel-listen_envs :
    (h : Text) (envs : List Env) (s : Loops) (x : Text)
    → has_channel (listen_envs h envs s) x
      ≡ (contains (namespaces_of envs) x || (x == sync_interval_key || has_channel s x))
unfolding listen_envs
channel-listen_envs h envs s x =
    ground (arith, channel-listen_each h envs (listen_interval s) x, channel-interval s x)

idle_env :
    (h : Text) (e : Env) (s : Loops) → has_channel s e.namespace ≡ true → listen_env h e s ≡ s
unfolding listen_env has_channel
idle_env h e s r = ground arith

idle_interval : (s : Loops) → has_channel s sync_interval_key ≡ true → listen_interval s ≡ s
unfolding listen_interval has_channel
idle_interval s r = ground arith

idle_each :
    (h : Text) (envs : List Env) (s : Loops)
    → ((x : Text) → contains (namespaces_of envs) x ≡ true → has_channel s x ≡ true)
    → listen_each h envs s ≡ s
unfolding listen_each
idle_each h [] s r = refl
idle_each h (e ∷ envs) s r =
    let same = idle_env h e s (r e.namespace (ground arith)) in
    rw same (idle_each h envs s (λ x m. r x (ground arith)))

idle_envs :
    (h : Text) (envs : List Env) (s : Loops)
    → has_channel s sync_interval_key ≡ true
    → ((x : Text) → contains (namespaces_of envs) x ≡ true → has_channel s x ≡ true)
    → listen_envs h envs s ≡ s
unfolding listen_envs
idle_envs h envs s i r = rw (idle_interval s i) (idle_each h envs s r)

-- After `listenEnvs`, the map has the stop channels of the environments of its list and of the interval loop,
-- and those that it had before, and no others. Each is made once: if `listenEnvs` is called with the same
-- list again, it does nothing.
pub listen_envs-once :
    (h : Text) (envs : List Env) (s : Loops) (x : Text)
    → (has_channel (listen_envs h envs s) x
        ≡ (contains (namespaces_of envs) x || (x == sync_interval_key || has_channel s x)))
      × (listen_envs h envs (listen_envs h envs s) ≡ listen_envs h envs s)
listen_envs-once h envs s x = (
  channel-listen_envs h envs s x,
  idle_envs h envs (listen_envs h envs s)
      (ground (arith, channel-listen_envs h envs s sync_interval_key))
      (λ y m. ground (arith, channel-listen_envs h envs s y)),
)

-- A loop was started for the namespace, with the stop channel.
abbrev pub has_loop : List (Text × ℕ) → Text → ℕ → Bool
has_loop [] x c = false
has_loop ((ns, d) ∷ started) x c = (x == ns && c == d) || has_loop started x c

-- Every stop channel in the map, but that of the interval loop, is that of a loop that was started.
abbrev pub HasLoops : Loops → Type 0
HasLoops s =
    (x : Text) (c : ℕ)
    → lookup x s.stop_chans ≡ some c
    → (x == sync_interval_key) ≡ false
    → has_loop s.started x c ≡ true

interval-HasLoops : (s : Loops) → HasLoops s → HasLoops (listen_interval s)
unfolding listen_interval
interval-HasLoops s h x c e o =
    ground (arith, lookup-insert x sync_interval_key s.next s.stop_chans, h x c)

listen_env-HasLoops : (g : Text) (e : Env) (s : Loops) → HasLoops s → HasLoops (listen_env g e s)
unfolding listen_env
listen_env-HasLoops g e s h x c f o =
    ground (arith, lookup-insert x e.namespace s.next s.stop_chans, h x c)

listen_each-HasLoops :
    (g : Text) (envs : List Env) (s : Loops) → HasLoops s → HasLoops (listen_each g envs s)
unfolding listen_each
listen_each-HasLoops g [] s h = h
listen_each-HasLoops g (e ∷ envs) s h =
    listen_each-HasLoops g envs (listen_env g e s) (listen_env-HasLoops g e s h)

-- The map has a stop channel for the namespace, and a loop was started with it.
abbrev pub IsLooped : Loops → Text → Type 0
IsLooped s x = (c : ℕ) × (lookup x s.stop_chans ≡ some c) × (has_loop s.started x c ≡ true)

channel-IsLooped :
    (s : Loops) (x : Text)
    → HasLoops s
    → (x == sync_interval_key) ≡ false
    → has_channel s x ≡ true
    → IsLooped s x
unfolding has_channel
channel-IsLooped s x h o m = elim (Option-cases (lookup x s.stop_chans)) [
  | inl n ↦ absurd (ground arith)
  | inr (c, e) ↦ (c, e, h x c e o)
]

-- If every stop channel in the map is that of a loop, then `listenEnvs` leaves a loop for each environment of
-- its list, with the stop channel in the map, unless its namespace is the key of the interval loop.
pub listen_envs-IsLooped :
    (g : Text) (envs : List Env) (s : Loops) (x : Text)
    → HasLoops s
    → (x == sync_interval_key) ≡ false
    → contains (namespaces_of envs) x ≡ true
    → IsLooped (listen_envs g envs s) x
unfolding listen_envs
listen_envs-IsLooped g envs s x h o m =
    channel-IsLooped (listen_envs g envs s) x
      (listen_each-HasLoops g envs (listen_interval s) (interval-HasLoops s h)) o
      (ground (arith, (listen_envs-once g envs s x).0))
