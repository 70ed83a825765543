-- ===== src/Agent/Resync.antt =====
-- pkg/agent/sync/sync_resource.go: what the agent reports of each namespace, and the goroutines that
-- `ReSync` stops and starts. The lists of the API server are a parameter; encoding the names to JSON
-- does not fail.
pub mod Reporting
pub mod Restarting
mod Tests
use choerodon_cluster_agent.Base.{
  ℕ, zero, suc, ◌+◌, Bool, true, false, not, Option, none, some, List, [], ◌∷◌, ◌==◌, nat_eq,
  list_eq, if◌then◌else◌,
}
use choerodon_cluster_agent.Base.Dict.{Dict, lookup}
use choerodon_cluster_agent.Base.Text.{Text}
use choerodon_cluster_agent.Cluster.{release_label}

-- The kinds that are listed by namespace.
pub data Kind : Type 0 where
  stateful_set replica_set service pod : Kind

-- An object of a list: its name and its labels.
pub record Item : Type 0 where
  pub name : Text
  pub labels : Dict Text Text

-- A packet of type `ResourceSync`: `Key`, without "env:", and `ResourceList`.
pub record Report : Type 0 where
  pub namespace : Text
  pub resources : List Text
  pub resource_type : Kind

-- `item.Labels[model.ReleaseLabel] != ""`
unfoldable pub is_released : Item → Bool
is_released i = elim (lookup release_label i.labels) [
  | none ↦ false
  | some release ↦ not (release == [])
]

-- The loop over the items.
unfoldable pub released_names : List Item → List Text
unfolding is_released
released_names [] = []
released_names (i ∷ items) =
    let rest = released_names items in if is_released i then i.name ∷ rest else rest

-- An error of the list is logged and passed over for stateful sets, and `glog.Fatal` for the others.
abbrev pub tolerates : Kind → Bool
tolerates stateful_set = true
tolerates _ = false

-- `syncStatefulSet`, `syncReplicaSet`, `syncService` and `syncPod`: the packets sent, and whether the
-- process has been ended.
unfoldable pub sync_kind :
    (Kind → Text → Option (List Item)) → Kind → List Text → List Report × Bool
unfolding released_names
sync_kind list kind [] = ([], false)
sync_kind list kind (ns ∷ namespaces) =
    let rest = sync_kind list kind namespaces in
    elim (list kind ns) [
      | none ↦ if tolerates kind then rest else ([], true)
      | some items ↦ (
        record { namespace = ns; resources = released_names items; resource_type = kind } ∷ rest.0,
        rest.1,
      )
    ]

-- The goroutines of `syncStatus`, which all do the same: how many send packets, how many wait at the
-- channel that `ctx.stopCh` is now, how many at one that has been closed, and how many have returned.
-- `ctx.stopCh` is read again at each turn.
pub record Goroutines : Type 0 where
  pub sending : ℕ
  pub on_current : ℕ
  pub on_closed : ℕ
  pub returned : ℕ

abbrev pub no_goroutines : Goroutines
no_goroutines = record { sending = 0; on_current = 0; on_closed = 0; returned = 0 }

-- `ReSync`, and of one goroutine: a tick, also when its channel has been closed, the end of sending,
-- and the return.
pub data Step : Type 0 where
  resyncs ticks late_ticks sent stops : Step

-- `ReSync`: the channel is closed, and replaced, and `Run` starts a goroutine that waits.
unfoldable pub resync : Goroutines → Goroutines
resync g = record g { on_closed = g.on_closed + g.on_current; on_current = 1 }

-- A step that does not happen in a state is `none`.
unfoldable pub next : Step → Goroutines → Option Goroutines
unfolding resync
next resyncs g = some (resync g)
next ticks g = elim g.on_current [
  | zero ↦ none
  | suc n ↦ some (record g { on_current = n; sending = g.sending + 1 })
]
next late_ticks g = elim g.on_closed [
  | zero ↦ none
  | suc n ↦ some (record g { on_closed = n; sending = g.sending + 1 })
]
next sent g = elim g.sending [
  | zero ↦ none
  | suc n ↦ some (record g { sending = n; on_current = g.on_current + 1 })
]
next stops g = elim g.on_closed [
  | zero ↦ none
  | suc n ↦ some (record g { on_closed = n; returned = g.returned + 1 })
]

unfoldable pub steps : List Step → Goroutines → Option Goroutines
unfolding next
steps [] g = some g
steps (x ∷ xs) g = elim (next x g) [ none ↦ none | some h ↦ steps xs h ]
