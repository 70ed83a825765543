-- ===== src/Agent/Loops/Channels.antt =====
-- The channels of the goroutines of the environments: which are in the map, and what the steps of
-- `listenEnvs`, `DeleteEnv` and a disconnection make of the map.
use choerodon_cluster_agent.Base.{
  ℕ, suc, ◌+◌, ◌<◌, ◌≤◌, ◌≡◌, refl, ap, true, false, none, some, List, [], ◌∷◌, arith, ◌==◌,
  contains, nat_eq, list_eq, Bool-cases, inl, inr,
}
use choerodon_cluster_agent.Base.Dict.{Dict, lookup, insert, erase}
use choerodon_cluster_agent.Base.Text.{Text}
use choerodon_cluster_agent.Agent.Managers.{close}
use choerodon_cluster_agent.Agent.Loops.{
  Loops, Env, Repo, begin_env, finish_turn, finish_env, listen_env, listen_interval,
  sync_interval_key, replace_first, delete_repo, close_loops, close_each,
}

-- The channels of the map, from `lo` on in the order of their numbers, all open and older than `next`.
abbrev pub Ascending : ℕ → ℕ → List ℕ → Dict Text ℕ → Type 0
Ascending lo next closed [] = Unit
Ascending lo next closed ((_, c) ∷ d) =
    (lo ≤ c) × (c < next) × (contains closed c ≡ false) × Ascending (suc c) next closed d

pub Ascending-insert :
    (lo n : ℕ) (closed : List ℕ) (k : Text) (d : Dict Text ℕ)
    → lo ≤ n
    → lookup k d ≡ none
    → contains closed n ≡ false
    → Ascending lo n closed d
    → Ascending lo (n + 1) closed (insert k n d)
unfolding insert lookup
Ascending-insert lo n closed k [] l m o _ = (l, omega arith, o, tt)
Ascending-insert lo n closed k ((j, c) ∷ d) l m o (a, b, f, rest) = elim (Bool-cases (k == j)) [
  | inl same ↦ absurd (ground arith)
  | inr other ↦
      rw other (
        a,
        omega arith,
        f,
        Ascending-insert (suc c) n closed k d (omega arith) (ground arith) o rest,
      )
]

Ascending-weaken :
    (lo lo' n : ℕ) (closed : List ℕ) (d : Dict Text ℕ)
    → lo' ≤ lo
    → Ascending lo n closed d
    → Ascending lo' n closed d
Ascending-weaken lo lo' n closed [] l _ = tt
Ascending-weaken lo lo' n closed ((j, c) ∷ d) l (a, b, f, rest) = (omega arith, b, f, rest)

pub Ascending-erase :
    (lo n : ℕ) (closed : List ℕ) (k : Text) (d : Dict Text ℕ)
    → Ascending lo n closed d
    → Ascending lo n closed (erase k d)
unfolding erase
Ascending-erase lo n closed k [] _ = tt
Ascending-erase lo n closed k ((j, c) ∷ d) (a, b, f, rest) = elim (Bool-cases (k == j)) [
  | inl same ↦ rw same (
      Ascending-weaken (suc c) lo n closed (erase k d) (omega arith)
        (Ascending-erase (suc c) n closed k d rest))
  | inr other ↦ rw other (a, b, f, Ascending-erase (suc c) n closed k d rest)
]

Ascending-close :
    (lo n c : ℕ) (closed : List ℕ) (d : Dict Text ℕ)
    → c < lo
    → Ascending lo n closed d
    → Ascending lo n (c ∷ closed) d
Ascending-close lo n c closed [] l _ = tt
Ascending-close lo n c closed ((j, c') ∷ d) l (a, b, f, rest) =
    (a, b, ground arith, Ascending-close (suc c') n c closed d (omega arith) rest)

pub next-unspent :
    (s : Loops)
    → ((c : ℕ) → contains s.closed c ≡ true → c < s.next)
    → contains s.closed s.next ≡ false
next-unspent s old = elim (Bool-cases (contains s.closed s.next)) [
  | inl e ↦ absurd (omega (arith, old s.next e))
  | inr e ↦ e
]

-- A new channel

-- The maps with a further channel and repository.
abbrev pub with_channel : Text → Dict Text Repo → Loops → Loops
with_channel k repos s = record s {
  stop_chans = insert k s.next s.stop_chans;
  git_repos = repos;
  next = s.next + 1;
}

pub interval-new :
    (s : Loops)
    → lookup sync_interval_key s.stop_chans ≡ none
    → listen_interval s
      ≡ record (with_channel sync_interval_key s.git_repos s) { intervals = s.intervals + 1 }
unfolding listen_interval
interval-new s n = rw (n, listen_interval)

pub interval-old :
    (s : Loops) (c : ℕ) → lookup sync_interval_key s.stop_chans ≡ some c → listen_interval s ≡ s
unfolding listen_interval
interval-old s c e = rw (e, listen_interval)

-- The repository of a turn.
abbrev pub repo_of : Text → Env → Loops → Repo
repo_of h e s = record {
  origin = replace_first e.git_url h e.namespace;
  env = e.namespace;
  id = s.next;
}

pub begin_env-new :
    (h : Text) (e : Env) (s : Loops)
    → lookup e.namespace s.stop_chans ≡ none
    → begin_env h e s ≡ (with_channel e.namespace s.git_repos s, some (repo_of h e s))
unfolding begin_env
begin_env-new h e s n = rw (n, begin_env)

pub begin_env-old :
    (h : Text) (e : Env) (s : Loops) (c : ℕ)
    → lookup e.namespace s.stop_chans ≡ some c
    → begin_env h e s ≡ (s, none)
unfolding begin_env
begin_env-old h e s c f = rw (f, begin_env)

pub listen_env-new :
    (h : Text) (e : Env) (s : Loops)
    → lookup e.namespace s.stop_chans ≡ none
    → listen_env h e s
      ≡ record (with_channel e.namespace (insert e.namespace (repo_of h e s) s.git_repos) s) {
        started = (e.namespace, s.next) ∷ s.started;
      }
unfolding listen_env finish_turn finish_env
listen_env-new h e s n = ap finish_turn (begin_env-new h e s n)

-- Deletion and disconnection

-- Only for a namespace without a repository is there a panic.
pub delete_repo-present :
    (ns : Text) (s : Loops) (r : Repo)
    → lookup ns s.git_repos ≡ some r
    → delete_repo ns s
      ≡ some (record s {
        asked = r.id ∷ s.asked;
        git_repos = erase ns s.git_repos;
        stop_chans = erase ns s.stop_chans;
      })
unfolding delete_repo
delete_repo-present ns s r e = rw (e, delete_repo)

pub delete_repo-absent :
    (ns : Text) (s : Loops) → lookup ns s.git_repos ≡ none → delete_repo ns s ≡ none
unfolding delete_repo
delete_repo-absent ns s n = rw (n, delete_repo)

close_each-total :
    (lo n : ℕ) (d : Dict Text ℕ) (closed : List ℕ)
    → Ascending lo n closed d
    → ((c : ℕ) → contains closed c ≡ true → c < n)
    → (closed' : List ℕ) × (close_each d closed ≡ some closed')
      × ((c : ℕ) → contains closed' c ≡ true → c < n)
      × ((c : ℕ) → contains closed c ≡ true → contains closed' c ≡ true)
      × ((k : Text) (c : ℕ) → lookup k d ≡ some c → contains closed' c ≡ true)
unfolding close_each close lookup
close_each-total lo n [] closed a old = (closed, refl, old, λ c m. m, λ k c e. absurd cc)
close_each-total lo n ((j, c) ∷ d) closed (a, b, f, rest) old =
    let (closed', e, old', more, all) =
      close_each-total (suc c) n d (c ∷ closed)
        (Ascending-close (suc c) n c closed d (omega arith) rest) (λ k m. ground (arith, old k)) in
    (
      closed',
      rw (close_each, close, f) e,
      old',
      λ k m. more k (ground arith),
      λ k v e'. elim (Bool-cases (k == j)) [
        | inl same ↦ more v (ground arith)
        | inr other ↦ all k v (ground arith)
      ],
    )

-- No channel of the map is closed twice.
pub close_loops-total :
    (s : Loops)
    → Ascending 0 s.next s.closed s.stop_chans
    → ((c : ℕ) → contains s.closed c ≡ true → c < s.next)
    → (closed' : List ℕ) × (close_loops s ≡ some (record s { stop_chans = []; closed = closed' }))
      × ((c : ℕ) → contains closed' c ≡ true → c < s.next)
      × ((c : ℕ) → contains s.closed c ≡ true → contains closed' c ≡ true)
      × ((k : Text) (c : ℕ) → lookup k s.stop_chans ≡ some c → contains closed' c ≡ true)
unfolding close_loops
close_loops-total s a old =
    let (closed', e, rest, more, all) = close_each-total 0 s.next s.stop_chans s.closed a old in
    (closed', rw (e, close_loops), rest, more, all)
