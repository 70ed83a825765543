-- ===== src/Agent/Resync/Tests.antt =====
-- Reports and restarts at concrete inputs.
use choerodon_cluster_agent.Base.{
  ◌+◌, ◌≤◌, ◌≡◌, refl, Option, none, some, List, [], ◌∷◌, ◌==◌, nat_eq, list_eq, if◌then◌else◌,
}
use choerodon_cluster_agent.Base.Dict.{lookup}
use choerodon_cluster_agent.Base.Text.{Text, codes}
use choerodon_cluster_agent.Cluster.{release_label}
use choerodon_cluster_agent.Agent.Resync.{
  Kind, pod, Item, sync_kind, resyncs, ticks, sent, stops, steps,
}
use choerodon_cluster_agent.Agent.Resync.Restarting.{steps-single}

abbrev item : Text → Text → Item
item name release = record { name = name; labels = (release_label, release) ∷ [] }

-- The pods of the namespace "a" are listed, and nothing else.
abbrev lists : Kind → Text → Option (List Item)
unfolding list_eq
lists kind ns =
    if ns == codes "a"
    then some (item (codes "one") (codes "r") ∷ item (codes "two") [] ∷ [])
    else none

-- A pod with an empty release label is not reported.
pods_of_a :
    (sync_kind lists pod (codes "a" ∷ [])).0
    ≡ record { namespace = codes "a"; resources = codes "one" ∷ []; resource_type = pod } ∷ []
unfolding sync_kind lists nat_eq lookup
pods_of_a = refl

steps-single_example : 0 + 1 ≤ 1
unfolding steps
steps-single_example =
    steps-single (resyncs ∷ ticks ∷ sent ∷ resyncs ∷ stops ∷ [])
      (record { sending = 0; on_current = 1; on_closed = 0; returned = 1 }) refl refl
