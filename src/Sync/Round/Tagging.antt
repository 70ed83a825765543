-- ===== src/Sync/Round/Tagging.antt =====
-- When a round of synchronisation moves the tag, and what it has done before.
use choerodon_cluster_agent.Base.{
  ◌≡◌, ◌≢◌, refl, Option, none, some, List, [], ◌∷◌, arith, ◌==◌, nat_eq, list_eq, Bool-cases,
  Option-cases, inl, inr,
}
use choerodon_cluster_agent.Base.Text.{Text}
use choerodon_cluster_agent.Resource.{resource_id_eq}
use choerodon_cluster_agent.Manifest.{load}
use choerodon_cluster_agent.Manifest.Filing.{Result-cases}
use choerodon_cluster_agent.Sync.{ChangeSet, SyncError, Objects, Outcome, synced, sync_errors}
use choerodon_cluster_agent.Sync.Actions.{
  Ending, not_exported, not_parsed, all_synced, some_failed, sync-Ending,
}
use choerodon_cluster_agent.Sync.Certificates.{
  convert_certificate_to_secret, convert_secret_to_certificate,
}
use choerodon_cluster_agent.Sync.Round.{
  Repo, Cluster, Effect, applied, event_logged, tag_moved, refreshed, Failure, fault, tag_failed,
  SyncEvent, Changes, ResourceCommit, old_revision, find_changes, label_all, changed_ids,
  resource_commits, event_errors, move_tag, finish, after_sync, apply_changes, do_sync,
}

-- The ways in which a round can go, with the old and the new revision.
pub data Trace (old new : Text) : List Effect × Option Failure → Type 0 where
  nothing_done : (f : Failure) → Trace old new ([], some f)
  applied_only : (cs : ChangeSet) (f : Failure) → Trace old new (applied cs ∷ [], some f)
  up_to_date :
      (cs : ChangeSet) (ev : SyncEvent)
      → old ≡ new
      → Trace old new (applied cs ∷ event_logged ev ∷ [], none)
  not_tagged :
      (cs : ChangeSet) (ev : SyncEvent)
      → old ≢ new
      → Trace old new (applied cs ∷ event_logged ev ∷ [], some tag_failed)
  tagged :
      (cs : ChangeSet) (ev : SyncEvent) (f : Option Failure)
      → old ≢ new
      → Trace old new (applied cs ∷ event_logged ev ∷ tag_moved new ∷ refreshed ∷ [], f)

module _ (r : Repo) (c : Cluster) (namespace : Text) where
  move_tag-Trace :
      (old new : Text) (cs : ChangeSet) (ev : SyncEvent)
      → Trace old new (move_tag r c namespace old new (applied cs ∷ event_logged ev ∷ []))
  unfolding move_tag
  move_tag-Trace old new cs ev = elim (Bool-cases (old == new)) [
    | inl same ↦ rw (same, move_tag) (up_to_date cs ev (ground arith))
    | inr other ↦ elim (Bool-cases (r.move_sync_tag_and_push new)) [
      | inl on ↦ rw (other, move_tag) (rw on (tagged cs ev _ (λ e. ground arith)))
      | inr off ↦ rw (other, move_tag) (rw off (not_tagged cs ev (λ e. ground arith)))
    ]
  ]

  finish-Trace :
      (old new : Text) (ch : Changes) (changed : Objects) (errs : SyncError) (cs : ChangeSet)
      → Trace old new (finish r c namespace old new ch changed errs (applied cs ∷ []))
  unfolding finish
  finish-Trace old new ch changed errs cs =
      elim (Option-cases (resource_commits ch.commits changed (changed_ids changed))) [
        | inl e ↦ rw (e, finish) (applied_only cs fault)
        | inr (rcs, e) ↦ rw (e, finish) (move_tag-Trace old new cs _)
      ]

  after_sync-Trace :
      (old new : Text) (ch : Changes) (restored : Objects) {s : Option ChangeSet × Outcome}
      → Ending s
      → Trace old new (after_sync r c namespace old new ch restored s)
  unfolding after_sync
  after_sync-Trace old new ch restored not_exported = nothing_done _
  after_sync-Trace old new ch restored not_parsed = nothing_done _
  after_sync-Trace old new ch restored (all_synced cs) = finish-Trace old new ch restored [] cs
  after_sync-Trace old new ch restored (some_failed cs errs) =
      finish-Trace old new ch restored errs cs

  apply_changes-Trace :
      (old new : Text) (all : Objects) (ch : Changes)
      → Trace old new (apply_changes r c namespace old new all ch)
  unfolding apply_changes
  apply_changes-Trace old new all ch =
      elim (Option-cases (
        convert_certificate_to_secret c.convert c.cert_manager_version namespace ch.commits all
          (label_all r c namespace ch.commits ch.resources))) [
            | inl e ↦ rw (e, apply_changes) (nothing_done fault)
            | inr ((repo, changed), e) ↦
                rw (e, apply_changes)
                  (after_sync-Trace old new ch
                    (convert_secret_to_certificate c.cert_manager_version changed)
                    (sync-Ending c.parse_obj c.applier c.decode c.export namespace repo changed))
          ]

  -- In a round that knows its two revisions, the change set is applied first and the event logged
  -- next; the tag is moved, to the new revision, only after both and only if the revisions differ; a
  -- round that reports no failure has applied the change set and logged the event, and has moved the
  -- tag unless the revisions are equal.
  pub do_sync-Trace :
      (old new : Text)
      → old_revision r.sync_revision ≡ some old
      → r.devops_sync_revision ≡ some new
      → Trace old new (do_sync r c namespace)
  unfolding do_sync
  do_sync-Trace old new known target = elim (Bool-cases r.clone) [
    | inr off ↦ rw (off, do_sync) (nothing_done _)
    | inl on ↦
        rw (on, do_sync)
          (rw known (
            rw target (elim (Result-cases (load c.decode namespace r.all_entries)) [
              | inr (f, e) ↦ rw e (nothing_done _)
              | inl ((all, files), e) ↦
                  rw e (elim (Option-cases (find_changes r c namespace old all files)) [
                    | inl none_found ↦ rw none_found (nothing_done _)
                    | inr (ch, some_found) ↦ rw some_found (apply_changes-Trace old new all ch)
                  ])
            ])))
  ]

-- The revisions that the tag was moved to.
abbrev pub tags : List Effect → List Text
tags [] = []
tags (tag_moved rev ∷ effects) = rev ∷ tags effects
tags (applied cs ∷ effects) = tags effects
tags (event_logged ev ∷ effects) = tags effects
tags (refreshed ∷ effects) = tags effects

module _ (r : Repo) (c : Cluster) (namespace : Text) where
  move_tag-errors :
      (old new : Text) (cs : ChangeSet) (ev ev' : SyncEvent)
      → let m = move_tag r c namespace old new (applied cs ∷ event_logged ev ∷ []) in
        let m' = move_tag r c namespace old new (applied cs ∷ event_logged ev' ∷ []) in
        (m.1 ≡ m'.1) × (tags m.0 ≡ tags m'.0)
  unfolding move_tag
  move_tag-errors old new cs ev ev' = elim (Bool-cases (old == new)) [
    | inl same ↦ rw same (refl, refl)
    | inr other ↦ elim (Bool-cases (r.move_sync_tag_and_push new)) [
      | inl on ↦ rw other (rw on (refl, refl))
      | inr off ↦ rw other (rw off (refl, refl))
    ]
  ]

  module _ (old new : Text) (ch : Changes) (changed : Objects) (cs : ChangeSet) where
    finish-fault :
        (errs : SyncError)
        → resource_commits ch.commits changed (changed_ids changed) ≡ none
        → finish r c namespace old new ch changed errs (applied cs ∷ [])
          ≡ (applied cs ∷ [], some fault)
    unfolding finish
    finish-fault errs e = rw (e, finish) refl

    finish-moves :
        (errs : SyncError) (rcs : List ResourceCommit)
        → resource_commits ch.commits changed (changed_ids changed) ≡ some rcs
        → (ev : SyncEvent) × (finish r c namespace old new ch changed errs (applied cs ∷ [])
            ≡ move_tag r c namespace old new (applied cs ∷ event_logged ev ∷ []))
    unfolding finish
    finish-moves errs rcs e = (
      record {
        resource_ids = changed_ids changed;
        commit = new;
        errors = event_errors r c namespace ch.commits errs;
        file_commits = ch.file_commits;
        resource_commits = rcs;
      },
      rw (e, finish) refl,
    )

    -- The errors of single resources do not hold the tag back: a round in which some resources could
    -- not be applied ends like the round in which all could be, and moves the tag to the same
    -- revisions.
    pub after_sync-errors :
        (errs : SyncError)
        → let failing = after_sync r c namespace old new ch changed (some cs, sync_errors errs) in
          let clean = after_sync r c namespace old new ch changed (some cs, synced) in
          (failing.1 ≡ clean.1) × (tags failing.0 ≡ tags clean.0)
    unfolding after_sync
    after_sync-errors errs =
        elim (Option-cases (resource_commits ch.commits changed (changed_ids changed))) [
          | inl e ↦ rw (finish-fault errs e, finish-fault [] e) (refl, refl)
          | inr (rcs, e) ↦
              let (ev, moves) = finish-moves errs rcs e in
              let (ev', moves') = finish-moves [] rcs e in
              rw (moves, moves') (move_tag-errors old new cs ev ev')
        ]
