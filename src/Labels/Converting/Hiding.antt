-- ===== src/Labels/Converting/Hiding.antt =====
-- pkg/kube/client.go, `ConvertCertificate`: what it returns, and what becomes of the secrets.
use mathlib.Core.Path.{ap₂}
use mathlib.Core.List.{append_assoc, append-nil}
use choerodon_cluster_agent.Base.{
  ◌≡◌, ◌≢◌, ◌∙◌, refl, sym, ap, subst, Bool, true, false, ◌||◌, Option, some, List, [], ◌∷◌, ◌++◌,
  nat_eq, list_eq, arith, All, Option-cases, inl, inr,
}
use choerodon_cluster_agent.Base.Dict.{Dict, insert, lookup-insert}
use choerodon_cluster_agent.Base.Text.{Text, codes}
use choerodon_cluster_agent.Cluster.{Settings, tls_secret_label, label, selects, secret}
use choerodon_cluster_agent.Labels.Converting.{
  CertObject, TlsSecret, Converted, kept, replaced, returns, convert_object, convert_each,
  is_replaced, any_replaced, documents, convert_objects, convert_certificate,
}

-- The secret is not among those that the export selects.
abbrev pub IsHidden : Settings → Text → Converted → Type 0
IsHidden s namespace (kept o) = Unit
IsHidden s namespace (replaced t) = selects s namespace secret t.labels ≡ false

label-tls :
    (version : Text) (l : Dict Text Text)
    → label tls_secret_label (insert tls_secret_label version l) ≡ version
unfolding label
label-tls version l = ground (arith, lookup-insert tls_secret_label tls_secret_label version l)

tls-hidden :
    (s : Settings) (version namespace : Text) (l : Dict Text Text)
    → version ≢ []
    → selects s namespace secret (insert tls_secret_label version l) ≡ false
unfolding selects list_eq
tls-hidden s [] namespace l given = absurd (given refl)
tls-hidden s (c ∷ version) namespace l given = rw (label-tls (c ∷ version) l) refl

convert_object-labels :
    (version namespace : Text) (o : CertObject) (t : TlsSecret)
    → convert_object version namespace o ≡ some (replaced t)
    → t.labels ≡ insert tls_secret_label version o.labels
unfolding convert_object
convert_object-labels version namespace o t e = ground arith

convert_object-IsHidden :
    (s : Settings) (version namespace : Text) (o : CertObject) (c : Converted)
    → version ≢ []
    → convert_object version namespace o ≡ some c
    → IsHidden s namespace c
convert_object-IsHidden s version namespace o (kept _) given e = tt
convert_object-IsHidden s version namespace o (replaced t) given e =
    rw (convert_object-labels version namespace o t e)
      (tls-hidden s version namespace o.labels given)

-- The first object and the others of a list that is converted.
convert_each-cons :
    (version namespace : Text) (o : CertObject) (objects : List CertObject) (cs : List Converted)
    → convert_each version namespace (o ∷ objects) ≡ some cs
    → (c : Converted) × (cs' : List Converted) × (convert_object version namespace o ≡ some c)
      × (convert_each version namespace objects ≡ some cs')
      × (cs ≡ c ∷ cs')
unfolding convert_each
convert_each-cons version namespace o objects cs e =
    elim (Option-cases (convert_object version namespace o)) [
      | inl n ↦ absurd (ground arith)
      | inr (c, p) ↦ elim (Option-cases (convert_each version namespace objects)) [
        | inl n ↦ absurd (ground arith)
        | inr (cs', q) ↦ (c, cs', p, q, ground arith)
      ]
    ]

convert_each-IsHidden :
    (s : Settings) (version namespace : Text) (objects : List CertObject) (cs : List Converted)
    → version ≢ []
    → convert_each version namespace objects ≡ some cs
    → All (IsHidden s namespace) cs
unfolding convert_each
convert_each-IsHidden s version namespace [] cs given e =
    let none_left : [] ≡ cs = cc in subst (All (IsHidden s namespace)) none_left tt
convert_each-IsHidden s version namespace (o ∷ objects) cs given e =
    let (c, cs', p, q, r) = convert_each-cons version namespace o objects cs e in
    rw r (
      convert_object-IsHidden s version namespace o c given p,
      convert_each-IsHidden s version namespace objects cs' given q,
    )

module _ (encode : Converted → Option Text) where
  documents-cons :
      (c : Converted) (cs : List Converted) (texts : Text)
      → documents encode (c ∷ cs) ≡ some texts
      → (t : Text) × (ts : Text) × (encode c ≡ some t)
        × (documents encode cs ≡ some ts)
        × (texts ≡ codes "\n---\n" ++ (t ++ ts))
  unfolding documents
  documents-cons c cs texts e = elim (Option-cases (encode c)) [
    | inl n ↦ absurd (ground arith)
    | inr (t, p) ↦ elim (Option-cases (documents encode cs)) [
      | inl n ↦ absurd (ground arith)
      | inr (ts, q) ↦ (t, ts, p, q, ground arith)
    ]
  ]

  convert_objects-step :
      (version namespace : Text) (o : CertObject) (objects : List CertObject) (c : Converted)
      (t buffer : Text) (converted : Bool)
      → convert_object version namespace o ≡ some c
      → encode c ≡ some t
      → convert_objects encode version namespace (o ∷ objects) buffer converted
        ≡ convert_objects encode version namespace objects
            (buffer ++ (codes "\n---\n" ++ t))
            (converted || is_replaced c)
  unfolding convert_objects
  convert_objects-step version namespace o objects c t buffer converted p q =
      rw (p, convert_objects, q)

  returns-join :
      (buffer sep t ts : Text) (a b c : Bool)
      → returns ((buffer ++ (sep ++ t)) ++ ts) ((a || b) || c)
        ≡ returns (buffer ++ (sep ++ (t ++ ts))) (a || (b || c))
  returns-join buffer sep t ts true b c =
      rw (append_assoc buffer (sep ++ t) ts, append_assoc sep t ts)
  returns-join buffer sep t ts false b c =
      rw (append_assoc buffer (sep ++ t) ts, append_assoc sep t ts)

  convert_objects-returns :
      (version namespace : Text) (objects : List CertObject) (cs : List Converted)
      (texts buffer : Text) (converted : Bool)
      → convert_each version namespace objects ≡ some cs
      → documents encode cs ≡ some texts
      → convert_objects encode version namespace objects buffer converted
        ≡ returns (buffer ++ texts) (converted || any_replaced cs)
  unfolding convert_objects convert_each documents
  convert_objects-returns version namespace [] [] texts buffer converted e d =
      let nothing : [] ≡ texts = cc in
      let same : converted ≡ (converted || false) = ground arith in
      subst (λ x. returns buffer converted ≡ returns (buffer ++ x) (converted || false)) nothing
        (rw (append-nil buffer, sym same))
  convert_objects-returns version namespace [] (c ∷ cs) texts buffer converted e d = absurd cc
  convert_objects-returns version namespace (o ∷ objects) cs texts buffer converted e d =
      let (c, cs', p, q, r) = convert_each-cons version namespace o objects cs e in
      let d' : documents encode (c ∷ cs') ≡ some texts = ap (documents encode) (sym r) ∙ d in
      let (t, ts, p', q', r') = documents-cons c cs' texts d' in
      convert_objects-step version namespace o objects c t buffer converted p p'
      ∙ convert_objects-returns version namespace objects cs' ts (buffer ++ (codes "\n---\n" ++ t))
          (converted || is_replaced c) q q'
      ∙ returns-join buffer (codes "\n---\n") t ts converted (is_replaced c) (any_replaced cs')
      ∙ ap₂ (λ x y. returns (buffer ++ x) (converted || any_replaced y)) (sym r') (sym r)

-- If every object can be converted and encoded, `ConvertCertificate` returns the converted objects, each
-- behind a separator, and says whether any of them is a secret now. No such secret is among those that
-- the export selects, so that no synchronisation sees it, if the agent has a version.
pub convert_certificate-hides :
    (encode : Converted → Option Text) (s : Settings) (version namespace : Text)
    (objects : List CertObject) (cs : List Converted) (texts : Text)
    → version ≢ []
    → convert_each version namespace objects ≡ some cs
    → documents encode cs ≡ some texts
    → (convert_certificate encode version namespace (some objects)
        ≡ returns texts (any_replaced cs))
      × All (IsHidden s namespace) cs
unfolding convert_certificate
convert_certificate-hides encode s version namespace objects cs texts given e d = (
  convert_objects-returns encode version namespace objects cs texts [] false e d,
  convert_each-IsHidden s version namespace objects cs given e,
)
