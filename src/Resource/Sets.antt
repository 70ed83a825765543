-- ===== src/Resource/Sets.antt =====
-- pkg/util/resource/resource.go, `ResourceIDSet` and `ResourceIDs`: sets of identifiers, for any type
-- of elements. A set that the source leaves `nil` is `none`.
use choerodon_cluster_agent.Base.{
  ◌≡◌, refl, sym, Bool, true, false, not, ◌&&◌, ◌||◌, Option, none, some, List, [], ◌∷◌, ◌++◌,
  arith, Eq, ◌==◌, contains, if◌then◌else◌,
}

module _ {ℓ} {K : Type ℓ} ⦃e : Eq K⦄ where
  -- `s[id] = struct{}{}`
  insert_one : K → List K → List K
  insert_one k s = if contains s k then s else s ++ k ∷ []

  -- `Add`, on a set that is not nil.
  unfoldable pub add : List K → List K → List K
  unfolding insert_one
  add s [] = s
  add s (k ∷ ids) = add (insert_one k s) ids

  -- `Contains`
  unfoldable pub set_contains : Option (List K) → K → Bool
  set_contains none id = false
  set_contains (some s) id = contains s id

  keep_missing : List K → Option (List K) → List K
  unfolding set_contains
  keep_missing [] others = []
  keep_missing (k ∷ s) others =
      let rest = keep_missing s others in if set_contains others k then rest else k ∷ rest

  -- `Without`: an empty or nil set on either side returns the receiver.
  unfoldable pub without : Option (List K) → Option (List K) → Option (List K)
  unfolding keep_missing
  without none others = none
  without (some []) others = some []
  without (some (k ∷ s)) none = some (k ∷ s)
  without (some (k ∷ s)) (some []) = some (k ∷ s)
  without (some (k ∷ s)) (some (j ∷ t)) = some (keep_missing (k ∷ s) (some (j ∷ t)))

  keep_common : List K → List K → List K
  keep_common [] others = []
  keep_common (k ∷ s) others =
      let rest = keep_common s others in if contains others k then k ∷ rest else rest

  -- `Intersection`: nil stands for no restriction.
  unfoldable pub intersection : Option (List K) → Option (List K) → Option (List K)
  unfolding keep_common
  intersection none others = others
  intersection (some s) none = some s
  intersection (some s) (some t) = some (keep_common s t)

  -- `ToSlice`
  unfoldable pub to_slice : Option (List K) → List K
  to_slice none = []
  to_slice (some s) = s

  -- `ResourceIDs.Without`, `ResourceIDs.Contains` and `ResourceIDs.Intersection`
  unfoldable pub ids_without : List K → Option (List K) → List K
  unfolding keep_missing
  ids_without ids others = keep_missing ids others

  unfoldable pub ids_contains : List K → K → Bool
  unfolding add set_contains
  ids_contains ids id = set_contains (some (add [] ids)) id

  unfoldable pub ids_intersection : List K → Option (List K) → Option (List K)
  unfolding add intersection
  ids_intersection ids others = intersection (some (add [] ids)) others

  contains-append : (s t : List K) (k : K) → contains (s ++ t) k ≡ contains s k || contains t k
  contains-append [] t k = refl
  contains-append (x ∷ s) t k = ground (arith, contains-append s t k)

  contains-insert_one :
      (j k : K) (s : List K) → contains (insert_one k s) j ≡ contains s j || j == k
  unfolding insert_one
  contains-insert_one j k s = ground (arith, contains-append s (k ∷ []) j)

  contains-add : (s ids : List K) (j : K) → contains (add s ids) j ≡ contains s j || contains ids j
  unfolding add
  contains-add s [] j = ground arith
  contains-add s (k ∷ ids) j =
      ground (arith, contains-add (insert_one k s) ids j, contains-insert_one j k s)

  contains-keep_missing :
      (s : List K) (others : Option (List K)) (j : K)
      → contains (keep_missing s others) j ≡ contains s j && not (set_contains others j)
  unfolding keep_missing
  contains-keep_missing [] others j = refl
  contains-keep_missing (k ∷ s) others j = ground (arith, contains-keep_missing s others j)

  contains-keep_common :
      (s others : List K) (j : K)
      → contains (keep_common s others) j ≡ contains s j && contains others j
  unfolding keep_common
  contains-keep_common [] others j = refl
  contains-keep_common (k ∷ s) others j = ground (arith, contains-keep_common s others j)

  -- An element is in the difference exactly if it is in the first set and not in the second, nil or
  -- empty sets included.
  pub contains-without :
      (s others : Option (List K)) (j : K)
      → set_contains (without s others) j ≡ set_contains s j && not (set_contains others j)
  unfolding without set_contains
  contains-without none others j = refl
  contains-without (some []) others j = refl
  contains-without (some (k ∷ s)) none j = ground arith
  contains-without (some (k ∷ s)) (some []) j = ground arith
  contains-without (some (k ∷ s)) (some (i ∷ t)) j = contains-keep_missing (k ∷ s) (some (i ∷ t)) j

  -- An element is in the intersection of a slice and a set exactly if it is in both, where the set
  -- is not nil; a nil set does not restrict the slice.
  pub contains-ids_intersection :
      (ids : List K) (others : Option (List K)) (j : K)
      → set_contains (ids_intersection ids others) j
        ≡ ids_contains ids j && elim others [ none ↦ true | some t ↦ contains t j ]
  unfolding ids_intersection ids_contains intersection
  contains-ids_intersection ids none j = ground arith
  contains-ids_intersection ids (some t) j = ground (arith, contains-keep_common (add [] ids) t j)

  -- A set that was filled from a slice has no element twice.
  abbrev pub NodupSet : List K → Type 0
  NodupSet [] = Unit
  NodupSet (k ∷ s) = (contains s k ≡ false) × NodupSet s

  NodupSet-snoc : (s : List K) (k : K) → NodupSet s → contains s k ≡ false → NodupSet (s ++ k ∷ [])
  NodupSet-snoc [] k u fresh = (refl, tt)
  NodupSet-snoc (x ∷ s) k (out, u) fresh =
      (ground (arith, contains-append s (k ∷ []) x), NodupSet-snoc s k u (ground arith))

  add-NodupSet : (s ids : List K) → NodupSet s → NodupSet (add s ids)
  unfolding add insert_one
  add-NodupSet s [] u = u
  add-NodupSet s (k ∷ ids) u =
      add-NodupSet (insert_one k s) ids (ground (arith, NodupSet-snoc s k u))

  -- Adding a slice to the empty set yields a set without repetition that has the elements of the
  -- slice and no other.
  pub to_slice-add :
      (ids : List K)
      → NodupSet (to_slice (some (add [] ids)))
        × ((j : K) → contains (to_slice (some (add [] ids))) j ≡ contains ids j)
  unfolding to_slice
  to_slice-add ids = (add-NodupSet [] ids tt, λ j. contains-add [] ids j)

  -- Membership in a set that is nil or not, after each operation, is the operation on sets: a
  -- difference has what is in the first set and not in the second; the intersection of a slice and a
  -- set has what is in both, and all of the slice if the set is nil; and a slice added to the empty set
  -- gives a set without repetition with the elements of the slice.
  sets-refine :
      (s others : Option (List K)) (ids : List K)
      → ((j : K)
          → set_contains (without s others) j ≡ set_contains s j && not (set_contains others j))
        × ((j : K)
            → set_contains (ids_intersection ids others) j
              ≡ contains ids j && elim others [ none ↦ true | some t ↦ contains t j ])
        × NodupSet (to_slice (some (add [] ids)))
        × ((j : K) → contains (to_slice (some (add [] ids))) j ≡ contains ids j)
  sets-refine s others ids =
      let filled = to_slice-add ids in
      (
        λ j. contains-without s others j,
        λ j.
            let held : ids_contains ids j ≡ contains ids j =
              unfold ids_contains set_contains in contains-add [] ids j in
            rw (sym held) (contains-ids_intersection ids others j),
        filled.0,
        filled.1,
      )
