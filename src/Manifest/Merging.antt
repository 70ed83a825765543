-- ===== src/Manifest/Merging.antt =====
-- The loop over the documents of one file, and one visit of `Load`.
use choerodon_cluster_agent.Base.{
  ◌≡◌, refl, inl, inr, true, false, none, some, List, [], ◌∷◌, ◌++◌, arith, ◌==◌, nat_eq, list_eq,
  Bool-cases, Option-cases,
}
use choerodon_cluster_agent.Base.Dict.{Dict, lookup, insert, lookup-insert, lookup-nil, lookup-cons}
use choerodon_cluster_agent.Base.Text.{Text}
use choerodon_cluster_agent.Manifest.{
  BaseObject, Result, ok, err, Decoded, parse_multidoc, Entry, is_manifest, merge_docs, visit,
}
use choerodon_cluster_agent.Manifest.Filing.{Result-cases, ok-injective}

-- A merge keeps what was there and adds all of the file, and no key is in both.
pub merge_docs-lookup :
    (docs objs objs' : Dict Text BaseObject) (k : Text)
    → merge_docs docs objs ≡ ok objs'
    → lookup k objs' ≡ elim (lookup k objs) [ some o ↦ some o | none ↦ lookup k docs ]
unfolding merge_docs
merge_docs-lookup [] objs objs' k h = ground (arith, lookup-nil {V = BaseObject} k, ok-injective h)
merge_docs-lookup ((id, o) ∷ docs) objs objs' k h = elim (Option-cases (lookup id objs)) [
  | inr (defined, twice) ↦ absurd (ground arith)
  | inl fresh ↦
      let ih = merge_docs-lookup docs (insert id o objs) objs' k (ground arith) in
      ground (arith, ih, lookup-insert k id o objs, lookup-cons k id o docs)
]

pub merge_docs-fresh :
    (docs objs objs' : Dict Text BaseObject) (k : Text) (o : BaseObject)
    → merge_docs docs objs ≡ ok objs'
    → lookup k docs ≡ some o
    → lookup k objs ≡ none
unfolding merge_docs
merge_docs-fresh [] objs objs' k o h found = absurd (ground (arith, lookup-nil {V = BaseObject} k))
merge_docs-fresh ((id, p) ∷ docs) objs objs' k o h found = elim (Option-cases (lookup id objs)) [
  | inr (defined, twice) ↦ absurd (ground arith)
  | inl fresh ↦ elim (Bool-cases (k == id)) [
    | inl same ↦ ground arith
    | inr other ↦
        let ih =
          merge_docs-fresh docs (insert id p objs) objs' k o (ground arith)
            (ground (arith, lookup-cons k id p docs)) in
        ground (arith, ih, lookup-insert k id p objs)
  ]
]

-- The objects of one file of the repository.
pub record Parsed (decode : Text → BaseObject → Decoded) (namespace : Text) (f : Entry)
    : Type 0 where
  pub bytes : Text
  pub source : Text
  pub docs : Dict Text BaseObject
  pub is_read : f.contents ≡ some bytes
  pub is_under : f.relative ≡ some source
  pub parses : parse_multidoc decode namespace bytes source ≡ ok docs

abbrev pub Objects : Type 0
Objects = Dict Text BaseObject

module _ (decode : Text → BaseObject → Decoded) (namespace : Text) where
  -- What a visit that succeeds has done with a manifest.
  pub record Visited (f : Entry) (objs objs' : Objects) : Type 0 where
    pub parsed : Parsed decode namespace f
    pub merges : merge_docs parsed.docs objs ≡ ok objs'

  pub visit-other :
      (f : Entry) (objs objs' : Objects) (files files' : List Text)
      → is_manifest f ≡ false
      → visit decode namespace f (objs, files) ≡ ok (objs', files')
      → objs' ≡ objs
  unfolding visit
  visit-other f objs objs' files files' no_manifest h = ground arith

  -- The end of a visit, behind the reading of the file.
  merge_visit : Result Objects → Objects → List Text → Text → Result (Objects × List Text)
  merge_visit (err e) objs files source = err e
  merge_visit (ok docs) objs files source = elim (merge_docs docs objs) [
    | err e ↦ err e
    | ok merged ↦ ok (merged, files ++ source ∷ [])
  ]

  visit-parsed :
      (f : Entry) (objs objs' : Objects) (files files' : List Text) (bytes source : Text)
      → f.contents ≡ some bytes
      → f.relative ≡ some source
      → (r : Result Objects) → parse_multidoc decode namespace bytes source ≡ r
      → merge_visit r objs files source ≡ ok (objs', files')
      → Visited f objs objs'
  unfolding merge_visit
  visit-parsed f objs objs' files files' bytes source is_read is_under (err e) p h =
      absurd (ground arith)
  visit-parsed f objs objs' files files' bytes source is_read is_under (ok docs) p h = record {
    parsed = record {
      bytes = bytes;
      source = source;
      docs = docs;
      is_read = is_read;
      is_under = is_under;
      parses = p;
    };
    merges = elim (Result-cases (merge_docs docs objs)) [
      | inr (e, bad) ↦ absurd (ground arith)
      | inl (merged, good) ↦ ground arith
    ];
  }

  pub visit-manifest :
      (f : Entry) (objs objs' : Objects) (files files' : List Text)
      → is_manifest f ≡ true
      → visit decode namespace f (objs, files) ≡ ok (objs', files')
      → Visited f objs objs'
  unfolding visit merge_visit
  visit-manifest f objs objs' files files' manifest h = elim (Bool-cases f.walk_error) [
    | inl bad ↦ absurd (ground arith)
    | inr walked ↦ elim (Option-cases f.contents) [
      | inl bad ↦ absurd (ground arith)
      | inr (bytes, is_read) ↦ elim (Option-cases f.relative) [
        | inl bad ↦ absurd (ground arith)
        | inr (source, is_under) ↦
            visit-parsed f objs objs' files files' bytes source is_read is_under
              (parse_multidoc decode namespace bytes source) refl (ground arith)
      ]
    ]
  ]
