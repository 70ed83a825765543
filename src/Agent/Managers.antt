-- ===== src/Agent/Managers.antt =====
-- pkg/util/operator/operator.go: the managers by namespace and their stop channels. A manager that is
-- `nil` is `none`, a channel its number, and the answer `none` is a panic.
use choerodon_cluster_agent.Base.{
  ℕ, Bool, true, false, Option, none, some, List, [], ◌∷◌, contains, nat_eq, list_eq, if◌then◌else◌,
}
use choerodon_cluster_agent.Base.Dict.{Dict, lookup, insert, erase}
use choerodon_cluster_agent.Base.Text.{Text}

abbrev pub MgrList : Type 0
MgrList = Dict Text (Option ℕ)

-- The list, and the channels that have been closed.
pub record Managers : Type 0 where
  pub mgrs : MgrList
  pub closed : List ℕ

-- `close`: a second time it panics.
unfoldable pub close : ℕ → List ℕ → Option (List ℕ)
close c closed = if contains closed c then none else some (c ∷ closed)

-- `Get`
unfoldable pub get : MgrList → Text → Option ℕ
get ms namespace = elim (lookup namespace ms) [ none ↦ none | some mgr ↦ mgr ]

-- `IsExist`
unfoldable pub is_exist : MgrList → Text → Bool
is_exist ms namespace = elim (lookup namespace ms) [
  | none ↦ false
  | some mgr ↦ elim mgr [ none ↦ false | some _ ↦ true ]
]

-- `Add`
unfoldable pub add_mgr : MgrList → Text → Option ℕ → MgrList × Bool
unfolding is_exist
add_mgr ms namespace mgr =
    if is_exist ms namespace then (ms, false) else (insert namespace mgr ms, true)

-- `AddStop`
unfoldable pub add_stop : MgrList → Text → ℕ → MgrList × Bool
unfolding is_exist
add_stop ms namespace stop_ch =
    if is_exist ms namespace then (ms, false) else (insert namespace (some stop_ch) ms, true)

-- `Remove`: a manager that is `nil` has no channel.
unfoldable pub remove_mgr : Managers → Text → Option (Managers × Bool)
unfolding close
remove_mgr s namespace = elim (lookup namespace s.mgrs) [
  | none ↦ some (s, false)
  | some mgr ↦ elim mgr [
    | none ↦ none
    | some stop_ch ↦ elim (close stop_ch s.closed) [
      | none ↦ none
      | some closed ↦ some (record { mgrs = erase namespace s.mgrs; closed = closed }, true)
    ]
  ]
]

-- `StopAll`: the managers stay in the list.
close_all : MgrList → List ℕ → Option (List ℕ)
unfolding close
close_all [] closed = some closed
close_all ((_, none) ∷ ms) closed = none
close_all ((_, some c) ∷ ms) closed = elim (close c closed) [
  | none ↦ none
  | some closed' ↦ close_all ms closed'
]

unfoldable pub stop_all : Managers → Option (Managers × Bool)
unfolding close_all
stop_all s = elim (close_all s.mgrs s.closed) [
  | none ↦ none
  | some closed ↦ some (record s { closed = closed }, true)
]
