-- ===== src/Agent/Loops/Keeping.antt =====
-- What each step on the goroutines of the environments keeps.
use choerodon_cluster_agent.Base.{
  ℕ, zero, suc, ◌<◌, ◌≡◌, refl, sym, ap, subst, true, ◌||◌, Option, none, some, List, [], ◌∷◌, ◌++◌,
  arith, contains, nat_eq, list_eq, Option-cases, inl, inr, All, pick,
}
use choerodon_cluster_agent.Base.Dict.{lookup, insert, lookup-insert}
use choerodon_cluster_agent.Base.Text.{Text}
use choerodon_cluster_agent.Agent.Loops.{
  Loops, Env, Repo, listen_interval, sync_interval_key, begin_env, finish_env,
}
use choerodon_cluster_agent.Agent.Loops.Channels.{
  Ascending, Ascending-insert, Ascending-erase, next-unspent, with_channel, interval-new,
  interval-old, repo_of, begin_env-new, begin_env-old,
}
use choerodon_cluster_agent.Agent.Loops.Held.{
  IsKept, IsAwaited, with_channel-IsKept, with_channel-IsAwaited, finish_env-IsKept,
  finish_env-started, disconnect-IsKept, after_delete, delete-IsKept, delete-IsAwaited,
}
use choerodon_cluster_agent.Agent.Loops.Turns.{Listening, State, go_on, waiting_envs}

module _ {ℓ κ μ} {A : Type ℓ} (P : A → Type κ) (Q : A → Type μ) where
  All-map : (xs : List A) → ((x : A) → P x → Q x) → All P xs → All Q xs
  All-map [] f _ = tt
  All-map (x ∷ xs) f (h, rest) = (f x h, All-map xs f rest)

module _ {ℓ κ} {A : Type ℓ} (P : A → Type κ) where
  pub All-pick :
      (i : ℕ) (xs rest : List A) (x : A) → pick i xs ≡ some (x, rest) → All P xs → P x × All P rest
  unfolding pick
  All-pick i [] rest x e _ = absurd cc
  All-pick zero (y ∷ xs) rest x e (h, hs) =
      let same : y ≡ x = ground arith in
      let others : xs ≡ rest = ground arith in (subst P same h, subst (All P) others hs)
  All-pick (suc i) (y ∷ xs) rest x e (h, hs) = elim (Option-cases (pick i xs)) [
    | inl n ↦ absurd (ground arith)
    | inr ((z, others), p) ↦
        let (here, left) = All-pick i xs others z p hs in
        let same : z ≡ x = ground arith in
        let tail : y ∷ others ≡ rest = ground arith in
        (subst P same here, subst (All P) tail (h, left))
  ]

abbrev pub Awaits : List Text → Loops → Listening → Type 0
Awaits d s l = IsAwaited d s l.waiting

-- The channels of the map are open, in the order of their numbers; the closed ones are old; the turns that
-- wait have their channels in the map, and the loops that were started are held, but for the
-- environments in `d`.
pub record Holds (d : List Text) (s : Loops) (calls : List Listening) : Type 0 where
  pub channels : Ascending 0 s.next s.closed s.stop_chans
  pub spent : (c : ℕ) → contains s.closed c ≡ true → c < s.next
  pub awaited : All (Awaits d s) calls
  pub held : All (IsKept d s) s.started

abbrev pub Inv : State → Type 0
Inv s = Holds s.disturbed s.loops s.calls

with_channel-Holds :
    (d : List Text) (k : Text) (s : Loops) (calls : List Listening)
    → lookup k s.stop_chans ≡ none
    → Holds d s calls
    → Holds d (with_channel k s.git_repos s) calls
with_channel-Holds d k s calls n i = record {
  channels =
      Ascending-insert 0 s.next s.closed k s.stop_chans (omega arith) n (next-unspent s i.spent)
        i.channels;
  spent = λ c m. omega (arith, i.spent c m);
  awaited =
      All-map (Awaits d s) (Awaits d (with_channel k s.git_repos s)) calls
        (λ l h. with_channel-IsAwaited d k s l.waiting n h) i.awaited;
  held =
      All-map (IsKept d s) (IsKept d (with_channel k s.git_repos s)) s.started
        (λ p h. with_channel-IsKept d k s p.0 p.1 n h) i.held;
}

pub interval-Holds :
    (d : List Text) (s : Loops) (calls : List Listening)
    → Holds d s calls
    → Holds d (listen_interval s) calls
interval-Holds d s calls i = elim (Option-cases (lookup sync_interval_key s.stop_chans)) [
  | inl n ↦
      let j = with_channel-Holds d sync_interval_key s calls n i in
      rw (interval-new s n)
        (record { channels = j.channels; spent = j.spent; awaited = j.awaited; held = j.held })
  | inr (c, e) ↦ rw (interval-old s c e) i
]

-- The next step of a call.

go_on-begins :
    (h : Text) (e : Env) (rest : List Env) (s s' : Loops) (o : Option Repo)
    → begin_env h e s ≡ (s', o)
    → go_on h none (e ∷ rest) s ≡ (s', record { git_host = h; waiting = o; rest = rest } ∷ [])
unfolding go_on
go_on-begins h e rest s s' o b =
    ap
      (λ (b : Loops × Option Repo). (b.0, record { git_host = h; waiting = b.1; rest = rest } ∷ []))
      b

pub go_on-Holds :
    (d : List Text) (h : Text) (o : Option Repo) (rest : List Env) (s : Loops)
    (calls : List Listening)
    → IsAwaited d s o
    → Holds d s calls
    → Holds d (go_on h o rest s).0 ((go_on h o rest s).1 ++ calls)
unfolding go_on finish_env
go_on-Holds d h (some r) rest s calls w i = record {
  channels = i.channels;
  spent = i.spent;
  awaited = (tt, i.awaited);
  held = (
    finish_env-started d r s w,
    All-map (IsKept d s) (IsKept d (finish_env r s)) s.started
        (λ p h. finish_env-IsKept d r s p.0 p.1 w h) i.held,
  );
}
go_on-Holds d h none [] s calls w i = i
go_on-Holds d h none (e ∷ rest) s calls w i =
    elim (Option-cases (lookup e.namespace s.stop_chans)) [
      | inr (c, f) ↦
          subst (λ g. Holds d g.0 (g.1 ++ calls))
            (sym (go_on-begins h e rest s s none (begin_env-old h e s c f)))
            (record {
              channels = i.channels;
              spent = i.spent;
              awaited = (tt, i.awaited);
              held = i.held;
            })
      | inl n ↦
          let j = with_channel-Holds d e.namespace s calls n i in
          let mine : lookup e.namespace (insert e.namespace s.next s.stop_chans) ≡ some s.next =
            ground (arith, lookup-insert e.namespace e.namespace s.next s.stop_chans) in
          let begun =
            go_on-begins h e rest s (with_channel e.namespace s.git_repos s) (some (repo_of h e s))
              (begin_env-new h e s n) in
          subst (λ g. Holds d g.0 (g.1 ++ calls)) (sym begun)
            (record {
              channels = j.channels;
              spent = j.spent;
              awaited = (inr mine, j.awaited);
              held = j.held;
            })
    ]

change-IsAwaited :
    (d d' : List Text) (s s' : Loops) (o : Option Repo)
    → ((r : Repo) → o ≡ some r → IsAwaited d s (some r) → IsAwaited d' s' (some r))
    → IsAwaited d s o
    → IsAwaited d' s' o
change-IsAwaited d d' s s' none f _ = tt
change-IsAwaited d d' s s' (some r) f w = f r refl w

-- The turns that wait when an environment is deleted or the connection is lost.
change-Awaits :
    (d d' : List Text) (s s' : Loops) (calls : List Listening)
    → ((r : Repo)
        → contains (waiting_envs calls) r.env ≡ true
        → IsAwaited d s (some r)
        → IsAwaited d' s' (some r))
    → All (Awaits d s) calls
    → All (Awaits d' s') calls
unfolding waiting_envs
change-Awaits d d' s s' [] f _ = tt
change-Awaits d d' s s' (l ∷ calls) f (h, rest) = (
  change-IsAwaited d d' s s' l.waiting (λ r e w. f r (ground arith) w) h,
  change-Awaits d d' s s' calls (λ r m w. f r (ground arith) w) rest,
)

pub delete-Holds :
    (d d' : List Text) (ns : Text) (s : Loops) (r : Repo) (calls : List Listening)
    → lookup ns s.git_repos ≡ some r
    → ((x : Text) → contains d x ≡ true → contains d' x ≡ true)
    → (contains (waiting_envs calls) ns ≡ true → contains d' ns ≡ true)
    → Holds d s calls
    → Holds d' (after_delete ns r s) calls
delete-Holds d d' ns s r calls f grow here i = record {
  channels = Ascending-erase 0 s.next s.closed ns s.stop_chans i.channels;
  spent = i.spent;
  awaited =
      change-Awaits d d' s (after_delete ns r s) calls
        (λ q m h. delete-IsAwaited d d' ns s r q (grow q.env) (λ same. ground (arith, here)) h)
        i.awaited;
  held =
      All-map (IsKept d s) (IsKept d' (after_delete ns r s)) s.started
        (λ p h. delete-IsKept d d' ns s r p.0 p.1 f (grow p.0) h) i.held;
}

contains-append :
    (xs ys : List Text) (x : Text) → contains (xs ++ ys) x ≡ (contains xs x || contains ys x)
contains-append [] ys x = refl
contains-append (y ∷ xs) ys x = ground (arith, contains-append xs ys x)

pub disconnect-Holds :
    (d : List Text) (s : Loops) (closed' : List ℕ) (calls : List Listening)
    → ((c : ℕ) → contains closed' c ≡ true → c < s.next)
    → ((c : ℕ) → contains s.closed c ≡ true → contains closed' c ≡ true)
    → ((k : Text) (c : ℕ) → lookup k s.stop_chans ≡ some c → contains closed' c ≡ true)
    → Holds d s calls
    → Holds (waiting_envs calls ++ d) (record s { stop_chans = []; closed = closed' }) calls
disconnect-Holds d s closed' calls old more all i =
    let d' = waiting_envs calls ++ d in
    let s' = record s { stop_chans = []; closed = closed' } in
    record {
      channels = tt;
      spent = old;
      awaited =
          change-Awaits d d' s s' calls
            (λ q m h. inl (ground (arith, contains-append (waiting_envs calls) d q.env))) i.awaited;
      held =
          All-map (IsKept d s) (IsKept d' s') s.started
            (λ p h.
              disconnect-IsKept d d' s closed' p.0 p.1 more all
                (λ m. ground (arith, contains-append (waiting_envs calls) d p.0)) h)
            i.held;
    }
