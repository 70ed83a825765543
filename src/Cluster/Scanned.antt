-- ===== src/Cluster/Scanned.antt =====
-- How the documents of an export are scanned.
use mathlib.Core.List.{append_assoc, append-nil}
use choerodon_cluster_agent.Base.{
  ℕ, ◌≡◌, refl, sym, ap, ◌∙◌, subst, suc, ◌<◌, Bool, true, false, Option, none, some, List, [], ◌∷◌,
  ◌++◌, ◌==◌, nat_eq, list_eq, arith, length, All,
}
use choerodon_cluster_agent.Base.Text.{Text, codes, has_prefix, index_of, index_byte}
use choerodon_cluster_agent.Manifest.{yaml_separator, split_yaml_document, scan_all, max_buffer}
use choerodon_cluster_agent.Manifest.Scanning.{join_docs, HasNoSeparator}
use choerodon_cluster_agent.Manifest.Scanning.Whole.{scan_all-whole, HasNoSeparator-prefix}
use choerodon_cluster_agent.Cluster.{K8sObject, K8sResource, typed}
use choerodon_cluster_agent.Cluster.Exporting.{Rendered, no_documents, document}

-- A text without a line feed.
abbrev pub IsPlain : Text → Type 0
IsPlain t = index_byte t 10 ≡ none

no_separator-plain : (p s : Text) → IsPlain p → HasNoSeparator s → HasNoSeparator (p ++ s)
unfolding index_byte index_of has_prefix
no_separator-plain [] s h k = k
no_separator-plain (c ∷ p) s h k = ground (arith, no_separator-plain p s)

no_separator-line :
    (c : ℕ) (s : Text) → (c == b'-') ≡ false → HasNoSeparator (c ∷ s) → HasNoSeparator (10 ∷ c ∷ s)
unfolding index_of has_prefix
no_separator-line c s h k = ground arith

-- What stands in front of a document once it is scanned: the first one keeps the line that opens it.
abbrev pub front : Bool → Text
front false = []
front true = codes "---\n"

module _ {B : Type 0} where
  abbrev pub HasPlainType : K8sResource B → Type 0
  HasPlainType r = IsPlain r.api_version × IsPlain r.kind

  typed-append : (r : K8sResource B) (z t : Text) → typed r (z ++ t) ≡ typed r z ++ t
  typed-append r z t =
      let kind = codes "\nkind: " in
      ap (λ u. codes "apiVersion: " ++ (r.api_version ++ (kind ++ u)))
        (sym (append_assoc r.kind (10 ∷ z) t))
      ∙ ap (λ u. codes "apiVersion: " ++ u)
          (sym (append_assoc r.api_version (kind ++ (r.kind ++ 10 ∷ z)) t))

  no_separator-typed :
      (b : Bool) (r : K8sResource B) (yaml : Text)
      → HasPlainType r
      → HasNoSeparator (10 ∷ yaml)
      → HasNoSeparator (front b ++ typed r yaml)
  unfolding nat_eq
  no_separator-typed b r yaml plain h =
      let kind = no_separator-plain r.kind (10 ∷ yaml) plain.1 h in
      let word =
        no_separator-plain (codes "kind: ") (r.kind ++ 10 ∷ yaml) (unfold index_byte nat_eq in refl)
          kind in
      let line = no_separator-line b'k' (codes "ind: " ++ (r.kind ++ 10 ∷ yaml)) refl word in
      let version =
        no_separator-plain r.api_version (codes "\nkind: " ++ (r.kind ++ 10 ∷ yaml)) plain.0 line in
      let whole =
        no_separator-plain (codes "apiVersion: ")
          (r.api_version ++ (codes "\nkind: " ++ (r.kind ++ 10 ∷ yaml)))
          (unfold index_byte nat_eq in refl) version in
      add_front b whole
    where
      add_front :
          (b : Bool) → HasNoSeparator (typed r yaml) → HasNoSeparator (front b ++ typed r yaml)
      add_front false k = k
      add_front true k =
          no_separator-plain (codes "---") (10 ∷ typed r yaml) (unfold index_byte nat_eq in refl)
            (no_separator-line b'a' _ refl k)

module _ {B : Type 0} (marshal : K8sObject B → Option Text) where
  -- The encoder writes lines, none of which opens a document.
  abbrev pub WritesLines : Type 0
  WritesLines =
      (o : K8sObject B) (yaml : Text)
      → marshal o ≡ some yaml
      → (z : Text) × (yaml ≡ z ++ 10 ∷ []) × HasNoSeparator (10 ∷ yaml)

  -- A scanned document of a resource: what was written for it, the last line feed of which goes to
  -- the separator that follows, where there is one.
  pub data IsDocumentOf (r : K8sResource B) : Text → Type 0 where
    followed :
        (b : Bool) (z : Text)
        → marshal r.object ≡ some (z ++ 10 ∷ [])
        → IsDocumentOf r (front b ++ typed r z)
    last :
        (b : Bool) (yaml : Text)
        → marshal r.object ≡ some yaml
        → IsDocumentOf r (front b ++ typed r yaml)

  -- The documents of the resources, one for each, in their order.
  pub data DocumentsOf : List (K8sResource B) → List Text → Type 0 where
    none_of_none : DocumentsOf [] []
    one_more :
        {r : K8sResource B} {rs : List (K8sResource B)} {d : Text} {ds : List Text}
        → IsDocumentOf r d
        → DocumentsOf rs ds
        → DocumentsOf (r ∷ rs) (d ∷ ds)

  module _ (lines : WritesLines) where
    -- A text of documents, as joined documents.
    record Joined (rs : List (K8sResource B)) (bytes : Text) : Type 0 where
      docs : List Text
      final : Text
      joins : bytes ≡ join_docs docs final
      docs_clean : All HasNoSeparator docs
      final_clean : HasNoSeparator final
      final_full : 0 < length final
      documents : DocumentsOf rs (docs ++ final ∷ [])

    joined :
        (b : Bool) (r : K8sResource B) (yaml : Text) (rs : List (K8sResource B)) (bytes : Text)
        → All HasPlainType (r ∷ rs)
        → marshal r.object ≡ some yaml
        → Rendered marshal rs bytes
        → Joined (r ∷ rs) (front b ++ (typed r yaml ++ bytes))
    joined b r yaml rs bytes plain e no_documents = record {
      docs = [];
      final = front b ++ typed r yaml;
      joins = ap (λ u. front b ++ u) (append-nil (typed r yaml));
      docs_clean = tt;
      final_clean = no_separator-typed b r yaml plain.0 (lines r.object yaml e).2;
      final_full = full b;
      documents = one_more (last b yaml e) none_of_none;
    }
      where
        full : (b : Bool) → 0 < length (front b ++ typed r yaml)
        full false = omega arith
        full true = omega arith
    joined b r yaml rs bytes plain e (document {r = r'} {rs = rs'} {bytes = bytes'} yaml' e' d) =
        let rest = joined false r' yaml' rs' bytes' plain.1 e' d in
        let ends = lines r.object yaml e in
        let z = ends.0 in
        let whole : typed r yaml ≡ typed r z ++ 10 ∷ [] =
          ap (typed r) ends.1 ∙ typed-append r z (10 ∷ []) in
        let split : front b ++ typed r yaml ≡ (front b ++ typed r z) ++ 10 ∷ [] =
          ap (λ u. front b ++ u) whole ∙ sym (append_assoc (front b) (typed r z) (10 ∷ [])) in
        record {
          docs = (front b ++ typed r z) ∷ rest.docs;
          final = rest.final;
          joins =
              sym (append_assoc (front b) (typed r yaml) bytes)
              ∙ ap (λ u. u ++ bytes) split
              ∙ append_assoc (front b ++ typed r z) (10 ∷ []) bytes
              ∙ ap (λ u. front b ++ typed r z ++ (yaml_separator ++ 10 ∷ u)) rest.joins;
          docs_clean = (
            HasNoSeparator-prefix (front b ++ typed r z) (10 ∷ [])
                (subst HasNoSeparator split (no_separator-typed b r yaml plain.0 ends.2)),
            rest.docs_clean,
          );
          final_clean = rest.final_clean;
          final_full = rest.final_full;
          documents = one_more (followed b z (e ∙ ap some ends.1)) rest.documents;
        }

    pub scanned :
        (rs : List (K8sResource B)) (bytes : Text)
        → All HasPlainType rs
        → Rendered marshal rs bytes
        → (scan_all (suc (length bytes)) max_buffer bytes).1 ≡ false
        → DocumentsOf rs (scan_all (suc (length bytes)) max_buffer bytes).0
    scanned rs bytes plain no_documents h = unfold scan_all split_yaml_document in none_of_none
    scanned rs bytes plain (document {r = r} {rs = rest} {bytes = more} yaml e d) h =
        let j = joined true r yaml rest more plain e d in
        let text = codes "---\n" ++ typed r yaml ++ more in
        let Goal : Text → Type 0 = λ t.
          (scan_all (suc (length t)) max_buffer t).1 ≡ false
          → DocumentsOf (r ∷ rest) (scan_all (suc (length t)) max_buffer t).0 in
        subst Goal (sym j.joins)
          (λ k.
            rw
              (scan_all-whole j.docs j.final (suc (length (join_docs j.docs j.final))) max_buffer
                j.docs_clean j.final_clean j.final_full (omega arith) k)
              j.documents)
          h
