-- ===== src/Kubectl/Failures.antt =====
-- The errors that `Kubectl.Apply` returns, by the runs of kubectl that gave them.
use choerodon_cluster_agent.Base.{
  ◌≡◌, refl, Bool, Option, none, some, List, [], ◌∷◌, ◌++◌, Option-cases, inl, inr,
}
use choerodon_cluster_agent.Base.Text.{Text, codes}
use choerodon_cluster_agent.Sync.{ApiObject, ChangeSet, SyncError}
use choerodon_cluster_agent.Kubectl.{
  RestConfig, make_multidoc, in_order, command_args, apply_singly, apply_batch, apply,
}

module _ {W : Type 0} (kubectl : List Text → Text → W → W × Option Text) (args : List Text) where
  -- One run per object, each in some state of the world: the errors are those of the runs that failed,
  -- in the order of the objects, with the resource of the object.
  pub data RunsEach : List ApiObject → SyncError → Type 0 where
    no_runs : RunsEach [] []
    succeeds :
        {o : ApiObject} {objs : List ApiObject} {errs : SyncError} (w : W)
        → (kubectl args o.resource.bytes w).1 ≡ none
        → RunsEach objs errs
        → RunsEach (o ∷ objs) errs
    fails :
        {o : ApiObject} {objs : List ApiObject} {errs : SyncError} (w : W) (e : Text)
        → (kubectl args o.resource.bytes w).1 ≡ some e
        → RunsEach objs errs
        → RunsEach (o ∷ objs) (record { resource = o.resource; error = e } ∷ errs)

  -- The objects of one command: there are none; or one run takes all and succeeds; or it fails, and
  -- each object has a run of its own.
  pub data Applied : List ApiObject → SyncError → Type 0 where
    nothing_to_do : Applied [] []
    at_once :
        {objs : List ApiObject} (w : W)
        → (kubectl args (make_multidoc objs) w).1 ≡ none
        → Applied objs []
    one_by_one :
        {objs : List ApiObject} {errs : SyncError} (w : W) (e : Text)
        → (kubectl args (make_multidoc objs) w).1 ≡ some e
        → RunsEach objs errs
        → Applied objs errs

  apply_singly-RunsEach :
      (objs : List ApiObject) (w : W) → RunsEach objs (apply_singly kubectl args objs w).1
  unfolding apply_singly
  apply_singly-RunsEach [] w = no_runs
  apply_singly-RunsEach (o ∷ objs) w =
      let r = kubectl args o.resource.bytes w in
      let rest = apply_singly-RunsEach objs r.0 in
      elim (Option-cases r.1) [
        | inl e ↦ rw e (succeeds w e rest)
        | inr (t, e) ↦ rw e (fails w t e rest)
      ]

  pub apply_batch-Applied :
      (objs : List ApiObject) (w : W) → Applied objs (apply_batch kubectl args objs w).1
  unfolding apply_batch
  apply_batch-Applied [] w = nothing_to_do
  apply_batch-Applied (o ∷ objs) w =
      let r = kubectl args (make_multidoc (o ∷ objs)) w in
      elim (Option-cases r.1) [
        | inl e ↦ rw (e, apply_batch) (at_once w e)
        | inr (t, e) ↦ rw (e, apply_batch) (one_by_one w t e (apply_singly-RunsEach (o ∷ objs) r.0))
      ]

module _ {W : Type 0} (kubectl : List Text → Text → W → W × Option Text)
    (sort : (ApiObject → ApiObject → Bool) → List ApiObject → List ApiObject) where
  -- The errors of `Kubectl.Apply` are those of the deletions, followed by those of the applications. Of
  -- either command, no error is returned if there is no object, or if the one run with all its objects
  -- succeeds; else each object has a run of its own, and the errors are those of the runs that fail, in
  -- the order in which kubectl takes the objects.
  pub apply-Applied :
      (config : RestConfig) (namespace : Text) (cs : ChangeSet) (w : W)
      → (deletions : SyncError) × (applications : SyncError) × ((apply kubectl sort config namespace
            cs w).1
          ≡ deletions ++ applications)
        × Applied kubectl
            (command_args config namespace (codes "delete"))
            (in_order sort cs).delete_obj
            deletions
        × Applied kubectl
            (command_args config namespace (codes "apply"))
            (in_order sort cs).apply_obj
            applications
  unfolding apply
  apply-Applied config namespace cs w =
      let ordered = in_order sort cs in
      let delete_args = command_args config namespace (codes "delete") in
      let d = apply_batch kubectl delete_args ordered.delete_obj w in
      let apply_args = command_args config namespace (codes "apply") in
      (
        d.1,
        (apply_batch kubectl apply_args ordered.apply_obj d.0).1,
        refl,
        apply_batch-Applied kubectl delete_args ordered.delete_obj w,
        apply_batch-Applied kubectl apply_args ordered.apply_obj d.0,
      )
