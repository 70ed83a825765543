-- ===== src/Labels/Converting.antt =====
-- pkg/kube/client.go, `ConvertCertificate`: a certificate that brings its own key becomes a secret. The
-- objects are those that `BuildUnstructured` makes of a manifest; it and the YAML encoder are parameters.
pub mod Hiding
use mathlib.Core.Path.{ap₂}
use mathlib.Core.List.{append_assoc, append-nil}
use choerodon_cluster_agent.Base.{
  ◌≡◌, ◌≢◌, ◌∙◌, refl, sym, ap, subst, Bool, true, false, ◌&&◌, ◌||◌, not, Option, none, some, List,
  [], ◌∷◌, ◌++◌, ◌==◌, nat_eq, list_eq, if◌then◌else◌, arith, All, Option-cases, inl, inr,
}
use choerodon_cluster_agent.Base.Dict.{Dict, insert, lookup, lookup-insert}
use choerodon_cluster_agent.Base.Text.{Text, codes}
use choerodon_cluster_agent.Cluster.{Settings, tls_secret_label, label, selects, secret}

-- An object: its name, labels and annotations, the map under `spec.existCert` if it is there, in which a
-- value that is not a string is `none`, and what else there is for the encoder.
pub record CertObject : Type 0 where
  pub name : Text
  pub labels : Dict Text Text
  pub annotations : Dict Text Text
  pub exist_cert : Option (Dict Text (Option Text))
  pub rest : Text

-- The fields that are set of a secret of type "kubernetes.io/tls".
pub record TlsSecret : Type 0 where
  pub name : Text
  pub namespace : Text
  pub labels : Dict Text Text
  pub annotations : Dict Text Text
  pub tls_key : Text
  pub tls_crt : Text

-- What goes into the buffer for an object: the object as it is, or the secret that replaces it.
pub data Converted : Type 0 where
  kept : CertObject → Converted
  replaced : TlsSecret → Converted

-- `certInfo[key].(string)`: a panic if there is no such string.
unfoldable pub string_at : Text → Dict Text (Option Text) → Option Text
string_at key info = elim (lookup key info) [ none ↦ none | some v ↦ v ]

-- The body of the loop; `none` is a panic.
unfoldable pub convert_object : Text → Text → CertObject → Option Converted
unfolding string_at
convert_object agent_version namespace o = elim o.exist_cert [
  | none ↦ some (kept o)
  | some info ↦ elim (string_at (codes "key") info) [
    | none ↦ none
    | some key ↦ elim (string_at (codes "cert") info) [
      | none ↦ none
      | some cert ↦ some (
          replaced (record {
            name = o.name;
            namespace = namespace;
            labels = insert tls_secret_label agent_version o.labels;
            annotations = o.annotations;
            tls_key = key;
            tls_crt = cert;
          }))
    ]
  ]
]

-- What the function returns: the buffer, or an error, with the flag `converted`; or it panics.
pub data Outcome : Type 0 where
  panics : Outcome
  fails : Bool → Outcome
  returns : Text → Bool → Outcome

abbrev pub is_replaced : Converted → Bool
is_replaced (kept o) = false
is_replaced (replaced s) = true

-- The objects, converted one by one.
unfoldable pub convert_each : Text → Text → List CertObject → Option (List Converted)
convert_each version namespace [] = some []
convert_each version namespace (o ∷ objects) = elim (convert_object version namespace o) [
  | none ↦ none
  | some c ↦ elim (convert_each version namespace objects) [ none ↦ none | some cs ↦ some (c ∷ cs) ]
]

module _ (encode : Converted → Option Text) where
  -- The loop, with the buffer and the flag as they are.
  unfoldable pub convert_objects : Text → Text → List CertObject → Text → Bool → Outcome
  unfolding convert_object
  convert_objects agent_version namespace [] buffer converted = returns buffer converted
  convert_objects agent_version namespace (o ∷ objects) buffer converted =
      elim (convert_object agent_version namespace o) [
        | none ↦ panics
        | some c ↦ elim (encode c) [
          | none ↦ fails converted
          | some text ↦
              convert_objects agent_version namespace objects (buffer ++ (codes "\n---\n" ++ text))
                (converted || is_replaced c)
        ]
      ]

  -- `ConvertCertificate`; an error of `BuildUnstructured` is `none`.
  unfoldable pub convert_certificate : Text → Text → Option (List CertObject) → Outcome
  unfolding convert_objects
  convert_certificate agent_version namespace none = fails false
  convert_certificate agent_version namespace (some objects) =
      convert_objects agent_version namespace objects [] false

  -- The documents, each behind a separator.
  unfoldable pub documents : List Converted → Option Text
  documents [] = some []
  documents (c ∷ cs) = elim (encode c) [
    | none ↦ none
    | some text ↦ elim (documents cs) [
      | none ↦ none
      | some texts ↦ some (codes "\n---\n" ++ (text ++ texts))
    ]
  ]

abbrev pub any_replaced : List Converted → Bool
any_replaced [] = false
any_replaced (c ∷ cs) = is_replaced c || any_replaced cs
