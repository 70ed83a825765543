-- ===== src/Manifest/Loading.antt =====
-- `Load`: the map of objects and the files that it visited.
use choerodon_cluster_agent.Base.{
  ◌≡◌, ◌⊎◌, inl, inr, true, some, List, [], ◌∷◌, arith, nat_eq, list_eq, All, Bool-cases,
  Option-cases,
}
use choerodon_cluster_agent.Base.Dict.{lookup, lookup-nil}
use choerodon_cluster_agent.Base.Text.{Text}
use choerodon_cluster_agent.Manifest.{
  BaseObject, ok, Decoded, Entry, is_manifest, visit, load_from, load,
}
use choerodon_cluster_agent.Manifest.Filing.{Result-cases}
use choerodon_cluster_agent.Manifest.Merging.{
  Parsed, Objects, merge_docs-lookup, merge_docs-fresh, visit-other, visit-manifest,
}

module _ (decode : Text → BaseObject → Decoded) (namespace : Text) where
  -- The objects of a file are all in the map.
  abbrev pub IsLoaded : Objects → Entry → Type 0
  IsLoaded objs f =
      is_manifest f ≡ true
      → (p : Parsed decode namespace f) × ((k : Text) (o : BaseObject)
          → lookup k p.docs ≡ some o
          → lookup k objs ≡ some o)

  -- An object of one of the files.
  abbrev pub FromFile : List Entry → Text → BaseObject → Type 0
  FromFile [] k o = ⊥
  FromFile (f ∷ fs) k o =
      ((p : Parsed decode namespace f) × (is_manifest f ≡ true) × (lookup k p.docs ≡ some o))
      ⊎ FromFile fs k o

  visit-keeps :
      (f : Entry) (objs objs' : Objects) (files files' : List Text) (k : Text) (o : BaseObject)
      → visit decode namespace f (objs, files) ≡ ok (objs', files')
      → lookup k objs ≡ some o
      → lookup k objs' ≡ some o
  visit-keeps f objs objs' files files' k o h old = elim (Bool-cases (is_manifest f)) [
    | inl is ↦
        let v = visit-manifest decode namespace f objs objs' files files' is h in
        ground (arith, merge_docs-lookup v.parsed.docs objs objs' k v.merges)
    | inr is_not ↦ rw (visit-other decode namespace f objs objs' files files' is_not h) old
  ]

  -- What is behind a visit that succeeds.
  load_from-rest :
      (f : Entry) (fs : List Entry) (objs objs' : Objects) (files files' : List Text)
      → load_from decode namespace (f ∷ fs) (objs, files) ≡ ok (objs', files')
      → (m : Objects) × (seen : List Text) × (visit decode namespace f (objs, files) ≡ ok (m, seen))
        × (load_from decode namespace fs (m, seen) ≡ ok (objs', files'))
  unfolding load_from
  load_from-rest f fs objs objs' files files' h =
      elim (Result-cases (visit decode namespace f (objs, files))) [
        | inr (e, bad) ↦ absurd (ground arith)
        | inl ((m, seen), good) ↦ (m, seen, good, ground arith)
      ]

  load_from-keeps :
      (fs : List Entry) (objs objs' : Objects) (files files' : List Text) (k : Text)
      (o : BaseObject)
      → load_from decode namespace fs (objs, files) ≡ ok (objs', files')
      → lookup k objs ≡ some o
      → lookup k objs' ≡ some o
  load_from-keeps [] objs objs' files files' k o h old = unfold load_from in ground arith
  load_from-keeps (f ∷ fs) objs objs' files files' k o h old =
      let (m, seen, here, rest) = load_from-rest f fs objs objs' files files' h in
      load_from-keeps fs m objs' seen files' k o rest (visit-keeps f objs m files seen k o here old)

  visit-IsLoaded :
      (f : Entry) (objs m objs' : Objects) (files seen : List Text)
      → visit decode namespace f (objs, files) ≡ ok (m, seen)
      → ((k : Text) (o : BaseObject) → lookup k m ≡ some o → lookup k objs' ≡ some o)
      → IsLoaded objs' f
  visit-IsLoaded f objs m objs' files seen here keeps is =
      let v = visit-manifest decode namespace f objs m files seen is here in
      let added : (k : Text) (o : BaseObject)
          → lookup k v.parsed.docs ≡ some o
          → lookup k objs' ≡ some o =
        λ k o found. keeps k o (
          ground (
            arith,
            merge_docs-lookup v.parsed.docs objs m k v.merges,
            merge_docs-fresh v.parsed.docs objs m k o v.merges found,
          )) in
      (v.parsed, added)

  load_from-IsLoaded :
      (fs : List Entry) (objs objs' : Objects) (files files' : List Text)
      → load_from decode namespace fs (objs, files) ≡ ok (objs', files')
      → All (IsLoaded objs') fs
  load_from-IsLoaded [] objs objs' files files' h = tt
  load_from-IsLoaded (f ∷ fs) objs objs' files files' h =
      let (m, seen, here, rest) = load_from-rest f fs objs objs' files files' h in
      (
        visit-IsLoaded f objs m objs' files seen here
            (λ k o found. load_from-keeps fs m objs' seen files' k o rest found),
        load_from-IsLoaded fs m objs' seen files' rest,
      )

  visit-FromFile :
      (f : Entry) (objs m : Objects) (files seen : List Text) (k : Text) (o : BaseObject)
      → visit decode namespace f (objs, files) ≡ ok (m, seen)
      → lookup k m ≡ some o
      → (lookup k objs ≡ some o)
        ⊎ ((p : Parsed decode namespace f) × (is_manifest f ≡ true) × (lookup k p.docs ≡ some o))
  visit-FromFile f objs m files seen k o here found = elim (Bool-cases (is_manifest f)) [
    | inr is_not ↦ inl (rw (visit-other decode namespace f objs m files seen is_not here) at found)
    | inl is ↦
        let v = visit-manifest decode namespace f objs m files seen is here in
        let both = merge_docs-lookup v.parsed.docs objs m k v.merges in
        elim (Option-cases (lookup k objs)) [
          | inl fresh ↦ inr (v.parsed, is, ground (arith, both))
          | inr (old, e) ↦ inl (ground (arith, both))
        ]
  ]

  load_from-FromFile :
      (fs : List Entry) (objs objs' : Objects) (files files' : List Text) (k : Text)
      (o : BaseObject)
      → load_from decode namespace fs (objs, files) ≡ ok (objs', files')
      → lookup k objs' ≡ some o
      → (lookup k objs ≡ some o) ⊎ FromFile fs k o
  load_from-FromFile [] objs objs' files files' k o h found = inl (unfold load_from in ground arith)
  load_from-FromFile (f ∷ fs) objs objs' files files' k o h found =
      let (m, seen, here, rest) = load_from-rest f fs objs objs' files files' h in
      elim (load_from-FromFile fs m objs' seen files' k o rest found) [
        | inr later ↦ inr (inr later)
        | inl early ↦ elim (visit-FromFile f objs m files seen k o here early) [
          | inl old ↦ inl old
          | inr new ↦ inr (inl new)
        ]
      ]

  -- When `Load` succeeds, `ParseMultidoc` has parsed every manifest that was visited; the map of `Load` has
  -- each of the objects in the maps that it returned, under the same key, none replaced by that of another
  -- file, and no other object. Of two documents of one file with the same key `ParseMultidoc` itself returns
  -- one.
  pub load-exact :
      (fs : List Entry) (objs : Objects) (files : List Text)
      → load decode namespace fs ≡ ok (objs, files)
      → All (IsLoaded objs) fs
        × ((k : Text) (o : BaseObject) → lookup k objs ≡ some o → FromFile fs k o)
  unfolding load
  load-exact fs objs files h = (
    load_from-IsLoaded fs [] objs [] files h,
    λ k o found. elim (load_from-FromFile fs [] objs [] files k o h found) [
      | inl old ↦ absurd (ground (arith, lookup-nil {V = BaseObject} k))
      | inr new ↦ new
    ],
  )
