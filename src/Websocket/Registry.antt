-- ===== src/Websocket/Registry.antt =====
-- pkg/websocket/client.go: the connections of pipes and the goroutines behind them, as steps that the
-- goroutines take in any order, and the end of the client.
use choerodon_cluster_agent.Base.{
  ℕ, zero, suc, ◌+◌, ◌≤◌, ◌≡◌, refl, Bool, true, Option, none, some, List, [], ◌∷◌, ◌++◌, arith,
  nat_eq, list_eq, if◌then◌else◌, ◌==◌, Option-cases, inl, inr, replicate, length,
}
use choerodon_cluster_agent.Base.Dict.{Dict, lookup, insert, erase}
use choerodon_cluster_agent.Base.Text.{Text}

-- The part of `appClient` that the goroutines share: the channel `quit`, `backgroundWait` and
-- `pipeConns`; beside it the connections that have been closed. A connection is a number.
pub record Registry : Type 0 where
  pub quit : Bool
  pub background : ℕ
  pub pipe_conns : Dict Text ℕ
  pub closed : List ℕ

-- `retainGoroutine`: a client that has quit refuses.
unfoldable pub retain_goroutine : Registry → Registry
retain_goroutine r = if r.quit then r else record r { background = r.background + 1 }

-- `releaseGoroutine`; a counter below zero would panic.
unfoldable pub release_goroutine : Registry → Option Registry
release_goroutine r = elim r.background [ zero ↦ none | suc n ↦ some (record r { background = n }) ]

-- `registerPipeConn`
unfoldable pub register_pipe_conn : Text → ℕ → Registry → Registry
register_pipe_conn id conn r =
    if r.quit
    then record r { closed = r.closed ++ conn ∷ [] }
    else record r { pipe_conns = insert id conn r.pipe_conns }

-- `closePipeConn`
unfoldable pub close_pipe_conn : Text → Registry → Registry
close_pipe_conn id r = elim (lookup id r.pipe_conns) [
  | none ↦ r
  | some conn ↦ record r { pipe_conns = erase id r.pipe_conns; closed = r.closed ++ conn ∷ [] }
]

-- The head of `stop`; closing the channel twice would panic.
unfoldable pub close_quit : Registry → Option Registry
close_quit r = if r.quit then none else some (record r { quit = true })

pub data Action : Type 0 where
  retain release stop : Action
  register : Text → ℕ → Action
  unregister : Text → Action

unfoldable pub act : Registry → Action → Option Registry
act r retain = some (retain_goroutine r)
act r release = release_goroutine r
act r stop = close_quit r
act r (register id conn) = some (register_pipe_conn id conn r)
act r (unregister id) = some (close_pipe_conn id r)

unfoldable pub act_all : Registry → List Action → Option Registry
act_all r [] = some r
act_all r (a ∷ rest) = elim (act r a) [ none ↦ none | some s ↦ act_all s rest ]

-- Whether `backgroundWait.Wait()` of `stop` returns.
abbrev pub stop_returns : Registry → Bool
stop_returns r = r.background == 0

-- What a client that has quit keeps to.
pub record Quiet (r s : Registry) : Type 0 where
  pub quits : s.quit ≡ true
  pub fewer : s.background ≤ r.background
  pub same : length s.pipe_conns ≤ length r.pipe_conns

length-erase : (id : Text) (m : Dict Text ℕ) → length (erase id m) ≤ length m
unfolding erase
length-erase id [] = omega arith
length-erase id ((k, v) ∷ m) = ground (arith, length-erase id m)

act-Quiet : (r s : Registry) (a : Action) → r.quit ≡ true → act r a ≡ some s → Quiet r s
unfolding act retain_goroutine release_goroutine register_pipe_conn close_quit close_pipe_conn
act-Quiet r s retain h e = ground arith
act-Quiet r s release h e = ground arith
act-Quiet r s stop h e = ground arith
act-Quiet r s (register id conn) h e = ground arith
act-Quiet r s (unregister id) h e = ground (arith, length-erase id r.pipe_conns)

act_all-Quiet :
    (r s : Registry) (actions : List Action)
    → r.quit ≡ true
    → act_all r actions ≡ some s
    → Quiet r s
unfolding act_all
act_all-Quiet r s [] h e = ground arith
act_all-Quiet r s (a ∷ rest) h e = elim (Option-cases (act r a)) [
  | inl off ↦ absurd (ground arith)
  | inr (t, on) ↦
      let one = act-Quiet r t a h on in
      let more = act_all-Quiet t s rest one.quits (ground arith) in
      record {
        quits = more.quits;
        fewer = omega (arith, one.fewer, more.fewer);
        same = omega (arith, one.same, more.same);
      }
]

releases :
    (n : ℕ) (r : Registry)
    → r.background ≡ n
    → (s : Registry) × (act_all r (replicate n release) ≡ some s) × (stop_returns s ≡ true)
unfolding act_all act release_goroutine
releases zero r h = (r, refl, ground arith)
releases (suc n) r h =
    let (s, runs, returns) = releases n (record r { background = n }) refl in
    (s, ground arith, returns)

-- Once the client has quit, whatever its goroutines do: it stays so, no further goroutine is retained,
-- no connection is added to the registry, and `stop` returns when the goroutines that are left have
-- been released.
pub act_all-quit :
    (r s : Registry) (actions : List Action)
    → r.quit ≡ true
    → act_all r actions ≡ some s
    → Quiet r s
      × ((t : Registry) × (act_all s (replicate s.background release) ≡ some t)
          × (stop_returns t ≡ true))
act_all-quit r s actions h e = (act_all-Quiet r s actions h e, releases s.background s refl)
