-- ===== src/Cluster/Exporting.antt =====
-- The documents of an export, and how they are scanned.
use mathlib.Core.List.{append_assoc, append-nil}
use choerodon_cluster_agent.Base.{
  ◌≡◌, refl, sym, ap, ◌∙◌, subst, ◌⊎◌, Option, some, List, [], ◌∷◌, ◌++◌, ◌==◌, nat_eq, list_eq,
  if◌then◌else◌, arith, Option-cases, Bool-cases, inl, inr,
}
use choerodon_cluster_agent.Base.Text.{Text, codes}
use choerodon_cluster_agent.Cluster.{
  Settings, Kind, K8sObject, K8sResource, Query, Listed, listed, not_found, failed, get_resources,
  typed, append_yaml, append_all, export_kinds, export,
}

-- The resources of a list that are not named as the environment is.
abbrev pub others : {B : Type 0} → Text → List (K8sResource B) → List (K8sResource B)
others namespace [] = []
others namespace (r ∷ rs) =
    let rest = others namespace rs in if r.object.name == namespace then rest else r ∷ rest

abbrev pub found : {B : Type 0} → Listed (K8sResource B) → List (K8sResource B)
found (listed rs) = rs
found not_found = []
found failed = []

module _ {B : Type 0} (lists : Query → Listed (K8sObject B)) where
  -- The resources of an export, kind by kind.
  abbrev pub exported : Settings → Text → List Kind → List (K8sResource B)
  exported s namespace [] = []
  exported s namespace (kind ∷ kinds) =
      others namespace (found (get_resources lists s namespace kind)) ++ exported s namespace kinds

Listed-cases :
    {A : Type 0} (l : Listed A) → ((xs : List A) × (l ≡ listed xs)) ⊎ (l ≡ not_found) ⊎ (l ≡ failed)
Listed-cases (listed xs) = inl (xs, refl)
Listed-cases not_found = inr (inl refl)
Listed-cases failed = inr (inr refl)

nothing_more : (buffer b : Text) → some buffer ≡ some b → b ≡ buffer ++ []
nothing_more buffer b h = let same : b ≡ buffer = cc in same ∙ sym (append-nil buffer)

module _ {B : Type 0} (marshal : K8sObject B → Option Text) where
  -- The text with one document for each resource.
  pub data Rendered : List (K8sResource B) → Text → Type 0 where
    no_documents : Rendered [] []
    document :
        {r : K8sResource B} {rs : List (K8sResource B)} {bytes : Text} (yaml : Text)
        → marshal r.object ≡ some yaml
        → Rendered rs bytes
        → Rendered (r ∷ rs) (codes "---\n" ++ typed r yaml ++ bytes)

  Rendered-append :
      (rs qs : List (K8sResource B)) (s t : Text)
      → Rendered rs s
      → Rendered qs t
      → Rendered (rs ++ qs) (s ++ t)
  Rendered-append rs qs s t no_documents k = k
  Rendered-append rs qs s t (document {r = r} {rs = rest} {bytes = bytes} yaml e d) k =
      rw (append_assoc (codes "---\n" ++ typed r yaml) bytes t)
        (document yaml e (Rendered-append rest qs bytes t d k))

  append_all-Rendered :
      (namespace buffer : Text) (rs : List (K8sResource B)) (b : Text)
      → append_all marshal namespace buffer rs ≡ some b
      → (t : Text) × (b ≡ buffer ++ t) × Rendered (others namespace rs) t
  unfolding append_all append_yaml
  append_all-Rendered namespace buffer [] b h =
      ([], nothing_more buffer b (unfold append_all in h), no_documents)
  append_all-Rendered namespace buffer (r ∷ rs) b h =
      elim (Bool-cases (r.object.name == namespace)) [
        | inl same ↦ rw same (append_all-Rendered namespace buffer rs b (ground arith))
        | inr other ↦ elim (Option-cases (marshal r.object)) [
          | inl e ↦ absurd (ground arith)
          | inr (yaml, e) ↦
              let ih =
                append_all-Rendered namespace (buffer ++ (codes "---\n" ++ typed r yaml)) rs b
                  (ground arith) in
              rw other (
                codes "---\n" ++ typed r yaml ++ ih.0,
                ih.1 ∙ append_assoc buffer (codes "---\n" ++ typed r yaml) ih.0,
                document yaml e ih.2,
              )
        ]
      ]

  module _ (lists : Query → Listed (K8sObject B)) (s : Settings) (namespace : Text) where
    export_kinds-Rendered :
        (kinds : List Kind) (buffer b : Text)
        → export_kinds lists marshal s namespace kinds buffer ≡ some b
        → (t : Text) × (b ≡ buffer ++ t) × Rendered (exported lists s namespace kinds) t
    unfolding export_kinds
    export_kinds-Rendered [] buffer b h = ([], nothing_more buffer b h, no_documents)
    export_kinds-Rendered (kind ∷ kinds) buffer b h =
        elim (Listed-cases (get_resources lists s namespace kind)) [
          | inr (inr e) ↦ absurd (ground arith)
          | inr (inl e) ↦ rw e (export_kinds-Rendered kinds buffer b (ground arith))
          | inl (rs, e) ↦ elim (Option-cases (append_all marshal namespace buffer rs)) [
            | inl bad ↦ absurd (ground arith)
            | inr (b', good) ↦
                let here = append_all-Rendered namespace buffer rs b' good in
                let rest = export_kinds-Rendered kinds b' b (ground arith) in
                rw e (
                  here.0 ++ rest.0,
                  rest.1 ∙ ap (λ u. u ++ rest.0) here.1 ∙ append_assoc buffer here.0 rest.0,
                  Rendered-append (others namespace rs) (exported lists s namespace kinds) here.0
                      rest.0 here.2 rest.2,
                )
          ]
        ]

    -- An export that succeeds is one document for each resource that the filters of the kinds select
    -- and that is not named as the environment is, kind by kind.
    pub export-Rendered :
        (kinds : List Kind) (bytes : Text)
        → export lists marshal s kinds namespace ≡ some bytes
        → Rendered (exported lists s namespace kinds) bytes
    unfolding export
    export-Rendered kinds bytes h =
        let r = export_kinds-Rendered kinds [] bytes h in
        subst (λ t. Rendered (exported lists s namespace kinds) t) (sym r.1) r.2
