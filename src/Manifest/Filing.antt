-- ===== src/Manifest/Filing.antt =====
-- `ParseMultidoc`: the keys and the namespace of the objects that it returns.
use choerodon_cluster_agent.Base.{
  suc, ◌≡◌, refl, ◌⊎◌, inl, inr, Bool, true, false, List, [], ◌∷◌, arith, subst, nat_eq, list_eq,
  if◌then◌else◌, length, All, Bool-cases,
}
use choerodon_cluster_agent.Base.Dict.{Dict, insert, insert-All}
use choerodon_cluster_agent.Base.Text.{Text, is_blank}
use choerodon_cluster_agent.Manifest.{
  BaseObject, resource_key, Failure, too_long, Result, ok, err, Decoded, unmarshal_object,
  parse_chunks, parse_multidoc, scan_all, max_buffer,
}

-- An entry of the map is filed under its own key, and its object belongs to the namespace.
abbrev pub IsFiledAt : Text → Text × BaseObject → Type 0
IsFiledAt namespace (k, o) = (resource_key o ≡ k) × (o.meta.namespace ≡ namespace)

abbrev pub IsFiled : Text → Dict Text BaseObject → Type 0
IsFiled namespace objs = All (IsFiledAt namespace) objs

pub Result-cases {ℓ} :
    {A : Type ℓ} (r : Result A) → ((a : A) × (r ≡ ok a)) ⊎ ((e : Failure) × (r ≡ err e))
Result-cases (ok a) = inl (a, refl)
Result-cases (err e) = inr (e, refl)

pub ok-injective {ℓ} : {A : Type ℓ} {a b : A} → ok a ≡ ok b → a ≡ b
ok-injective h = cc

module _ (decode : Text → BaseObject → Decoded) (namespace : Text) where
  unmarshal-namespace :
      (source d : Text) (o : BaseObject)
      → unmarshal_object decode namespace source d ≡ ok o
      → o.meta.namespace ≡ namespace
  unfolding unmarshal_object
  unmarshal-namespace source d o h = ground arith

  parse_chunks-All :
      (source : Text) (Q : Text → Type 0) (R : Text × BaseObject → Type 0)
      → ((d : Text)
          → Q d
          → (o : BaseObject) → unmarshal_object decode namespace source d ≡ ok o
          → R (resource_key o, o))
      → (ds : List Text) (objs objs' : Dict Text BaseObject) → All Q ds
      → All R objs
      → parse_chunks decode namespace source ds objs ≡ ok objs'
      → All R objs'
  unfolding parse_chunks
  parse_chunks-All source Q R files [] objs objs' q all h = subst (All R) (ok-injective h) all
  parse_chunks-All source Q R files (d ∷ ds) objs objs' q all h = elim (Bool-cases (is_blank d)) [
    | inl blank ↦ parse_chunks-All source Q R files ds objs objs' q.1 all (ground arith)
    | inr full ↦ elim (Result-cases (unmarshal_object decode namespace source d)) [
      | inr (e, bad) ↦ absurd (ground arith)
      | inl (o, good) ↦
          parse_chunks-All source Q R files ds (insert (resource_key o) o objs) objs' q.1
            (insert-All R (resource_key o) o objs (files d q.0 o good) all) (ground arith)
    ]
  ]

  trivially : (ds : List Text) → All {0, 0} (λ _. Unit) ds
  trivially [] = tt
  trivially (d ∷ ds) = (tt, trivially ds)

  finish-eq-ok :
      (r : Result (Dict Text BaseObject)) (overflowed : Bool) (objs : Dict Text BaseObject)
      → elim r [ err e ↦ err e | ok m ↦ if overflowed then err too_long else ok m ] ≡ ok objs
      → r ≡ ok objs
  finish-eq-ok (err e) overflowed objs h = cc
  finish-eq-ok (ok m) true objs h = cc
  finish-eq-ok (ok m) false objs h = h

  finish-whole :
      (r : Result (Dict Text BaseObject)) (overflowed : Bool) (objs : Dict Text BaseObject)
      → elim r [ err e ↦ err e | ok m ↦ if overflowed then err too_long else ok m ] ≡ ok objs
      → overflowed ≡ false
  finish-whole (err e) overflowed objs h = cc
  finish-whole (ok m) true objs h = cc
  finish-whole (ok m) false objs h = refl

  -- What holds of the scanned documents holds, suitably, of the objects that a parse returns, and a
  -- parse that returns objects has not seen the scanner overflow.
  pub parse_multidoc-All :
      (multidoc source : Text) (objs : Dict Text BaseObject) (Q : Text → Type 0)
      (R : Text × BaseObject → Type 0)
      → ((d : Text)
          → Q d
          → (o : BaseObject) → unmarshal_object decode namespace source d ≡ ok o
          → R (resource_key o, o))
      → ((scan_all (suc (length multidoc)) max_buffer multidoc).1 ≡ false
          → All Q (scan_all (suc (length multidoc)) max_buffer multidoc).0)
      → parse_multidoc decode namespace multidoc source ≡ ok objs
      → All R objs
  unfolding parse_multidoc
  parse_multidoc-All multidoc source objs Q R files docs_hold h =
      let docs = scan_all (suc (length multidoc)) max_buffer multidoc in
      let parsed = parse_chunks decode namespace source docs.0 [] in
      parse_chunks-All source Q R files docs.0 [] objs
        (docs_hold (finish-whole parsed docs.1 objs h)) tt (finish-eq-ok parsed docs.1 objs h)

  -- Every object of a parsed file is filed under the key that its kind and name give, and has the
  -- namespace of the environment, whatever the document says.
  pub parse_multidoc-IsFiled :
      (multidoc source : Text) (objs : Dict Text BaseObject)
      → parse_multidoc decode namespace multidoc source ≡ ok objs
      → IsFiled namespace objs
  parse_multidoc-IsFiled multidoc source objs h =
      parse_multidoc-All multidoc source objs (λ _. Unit) (IsFiledAt namespace)
        (λ d _ o good. (refl, unmarshal-namespace source d o good))
        (λ _. trivially (scan_all (suc (length multidoc)) max_buffer multidoc).0) h
