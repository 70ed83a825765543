-- ===== src/Agent/Loops/Held.antt =====
-- What the steps on the goroutines of the environments make of a loop that was started, and of a turn that
-- waits.
use choerodon_cluster_agent.Base.{
  ℕ, ◌≡◌, refl, true, Option, none, some, List, [], ◌∷◌, arith, ◌==◌, contains, nat_eq, list_eq,
  Bool-cases, inl, inr, ◌⊎◌,
}
use choerodon_cluster_agent.Base.Dict.{lookup, erase, lookup-insert, lookup-erase}
use choerodon_cluster_agent.Base.Text.{Text}
use choerodon_cluster_agent.Agent.Loops.{Loops, Repo, finish_env}
use choerodon_cluster_agent.Agent.Loops.Channels.{with_channel}

-- The maps have the loop's channel and repository for its environment.
abbrev pub IsCurrent : Loops → Text × ℕ → Type 0
IsCurrent s (ns, c) =
    (r : Repo) × (lookup ns s.stop_chans ≡ some c) × (lookup ns s.git_repos ≡ some r) × (r.id ≡ c)

-- A loop that was started has been told to stop, through its channel or that of its repository, or is
-- the one whose channel and repository the maps have for its environment.
abbrev pub IsHeld : Loops → Text × ℕ → Type 0
IsHeld s (ns, c) =
    (contains s.closed c ≡ true) ⊎ ((contains s.asked c ≡ true) ⊎ IsCurrent s (ns, c))

-- The same, but for an environment of the list.
abbrev pub IsKept : List Text → Loops → Text × ℕ → Type 0
IsKept d s (ns, c) = (contains d ns ≡ true) ⊎ IsHeld s (ns, c)

-- A turn that waits has its channel in the map, but for an environment of the list.
abbrev pub IsAwaited : List Text → Loops → Option Repo → Type 0
IsAwaited d s none = Unit
IsAwaited d s (some r) = (contains d r.env ≡ true) ⊎ (lookup r.env s.stop_chans ≡ some r.id)

-- A new channel

pub with_channel-IsKept :
    (d : List Text) (k : Text) (s : Loops) (x : Text) (c : ℕ)
    → lookup k s.stop_chans ≡ none
    → IsKept d s (x, c)
    → IsKept d (with_channel k s.git_repos s) (x, c)
with_channel-IsKept d k s x c n (inl m) = inl m
with_channel-IsKept d k s x c n (inr (inl m)) = inr (inl m)
with_channel-IsKept d k s x c n (inr (inr (inl m))) = inr (inr (inl m))
with_channel-IsKept d k s x c n (inr (inr (inr (q, f, g, e)))) = elim (Bool-cases (x == k)) [
  | inl eq ↦ absurd (ground arith)
  | inr other ↦ inr (inr (inr (q, ground (arith, lookup-insert x k s.next s.stop_chans), g, e)))
]

pub with_channel-IsAwaited :
    (d : List Text) (k : Text) (s : Loops) (o : Option Repo)
    → lookup k s.stop_chans ≡ none
    → IsAwaited d s o
    → IsAwaited d (with_channel k s.git_repos s) o
with_channel-IsAwaited d k s none n _ = tt
with_channel-IsAwaited d k s (some r) n (inl m) = inl m
with_channel-IsAwaited d k s (some r) n (inr e) = elim (Bool-cases (r.env == k)) [
  | inl eq ↦ absurd (ground arith)
  | inr other ↦ inr (ground (arith, lookup-insert r.env k s.next s.stop_chans))
]

-- The end of a turn

pub finish_env-IsKept :
    (d : List Text) (r : Repo) (s : Loops) (x : Text) (c : ℕ)
    → IsAwaited d s (some r)
    → IsKept d s (x, c)
    → IsKept d (finish_env r s) (x, c)
unfolding finish_env
finish_env-IsKept d r s x c w (inl m) = inl m
finish_env-IsKept d r s x c w (inr (inl m)) = inr (inl m)
finish_env-IsKept d r s x c w (inr (inr (inl m))) = inr (inr (inl m))
finish_env-IsKept d r s x c w (inr (inr (inr (q, f, g, e)))) = elim (Bool-cases (x == r.env)) [
  | inr other ↦ inr (inr (inr (q, f, ground (arith, lookup-insert x r.env r s.git_repos), e)))
  | inl eq ↦ elim w [
    | inl m ↦ inl (ground arith)
    | inr mine ↦
        inr (inr (inr (r, f, ground (arith, lookup-insert x r.env r s.git_repos), ground arith)))
  ]
]

-- The loop that the turn starts.
pub finish_env-started :
    (d : List Text) (r : Repo) (s : Loops)
    → IsAwaited d s (some r)
    → IsKept d (finish_env r s) (r.env, r.id)
unfolding finish_env
finish_env-started d r s (inl m) = inl m
finish_env-started d r s (inr e) =
    inr (inr (inr (r, e, ground (arith, lookup-insert r.env r.env r s.git_repos), refl)))

-- Disconnection

pub disconnect-IsKept :
    (d d' : List Text) (s : Loops) (closed' : List ℕ) (x : Text) (c : ℕ)
    → ((c : ℕ) → contains s.closed c ≡ true → contains closed' c ≡ true)
    → ((k : Text) (c : ℕ) → lookup k s.stop_chans ≡ some c → contains closed' c ≡ true)
    → (contains d x ≡ true → contains d' x ≡ true)
    → IsKept d s (x, c)
    → IsKept d' (record s { stop_chans = []; closed = closed' }) (x, c)
disconnect-IsKept d d' s closed' x c more all grow (inl m) = inl (grow m)
disconnect-IsKept d d' s closed' x c more all grow (inr (inl m)) = inr (inl (more c m))
disconnect-IsKept d d' s closed' x c more all grow (inr (inr (inl m))) = inr (inr (inl m))
disconnect-IsKept d d' s closed' x c more all grow (inr (inr (inr (r, e, _, _)))) =
    inr (inl (all x c e))

-- Deletion

abbrev pub after_delete : Text → Repo → Loops → Loops
after_delete ns r s = record s {
  asked = r.id ∷ s.asked;
  git_repos = erase ns s.git_repos;
  stop_chans = erase ns s.stop_chans;
}

pub delete-IsKept :
    (d d' : List Text) (ns : Text) (s : Loops) (r : Repo) (x : Text) (c : ℕ)
    → lookup ns s.git_repos ≡ some r
    → (contains d x ≡ true → contains d' x ≡ true)
    → IsKept d s (x, c)
    → IsKept d' (after_delete ns r s) (x, c)
delete-IsKept d d' ns s r x c f grow (inl m) = inl (grow m)
delete-IsKept d d' ns s r x c f grow (inr (inl m)) = inr (inl m)
delete-IsKept d d' ns s r x c f grow (inr (inr (inl m))) = inr (inr (inl (ground arith)))
delete-IsKept d d' ns s r x c f grow (inr (inr (inr (q, e, g, k)))) = elim (Bool-cases (x == ns)) [
  | inl same ↦ inr (inr (inl (ground arith)))
  | inr other ↦ inr (
      inr (
        inr (
          q,
          ground (arith, lookup-erase x ns s.stop_chans),
          ground (arith, lookup-erase x ns s.git_repos),
          k,
        )))
]

-- The turn that waits for the environment which is deleted is the exception.
pub delete-IsAwaited :
    (d d' : List Text) (ns : Text) (s : Loops) (r q : Repo)
    → (contains d q.env ≡ true → contains d' q.env ≡ true)
    → ((q.env == ns) ≡ true → contains d' q.env ≡ true)
    → IsAwaited d s (some q)
    → IsAwaited d' (after_delete ns r s) (some q)
delete-IsAwaited d d' ns s r q grow here (inl m) = inl (grow m)
delete-IsAwaited d d' ns s r q grow here (inr e) = elim (Bool-cases (q.env == ns)) [
  | inl same ↦ inl (here same)
  | inr other ↦ inr (ground (arith, lookup-erase q.env ns s.stop_chans))
]
