-- ===== src/Sync/Certificates.antt =====
-- pkg/gitops/gitops_sync.go, `convertCertificateToSecret` and `convertSecretToCertificate`. The client's
-- `ConvertCertificate` is a parameter.
use choerodon_cluster_agent.Base.{
  Bool, ◌&&◌, not, Option, none, some, List, [], ◌∷◌, ◌++◌, ◌==◌, nat_eq, list_eq, if◌then◌else◌,
}
use choerodon_cluster_agent.Base.Dict.{Dict, lookup, insert, erase_all}
use choerodon_cluster_agent.Base.Text.{Text, codes}
use choerodon_cluster_agent.Manifest.{BaseObject}
use choerodon_cluster_agent.Sync.{Objects}

-- `parseKey`: the part between the first two slashes; with no slash the index is out of range.
up_to_slash : Text → Text
up_to_slash [] = []
up_to_slash (c ∷ s) = let rest = up_to_slash s in if c == b'/' then [] else c ∷ rest

unfoldable pub parse_key : Text → Option Text
unfolding up_to_slash
parse_key [] = none
parse_key (c ∷ s) = let rest = parse_key s in if c == b'/' then some (up_to_slash s) else rest

-- What `ConvertCertificate` answers: not a certificate to convert, an error or an empty result for one
-- that is, or the manifest of the secret.
pub data Converted : Type 0 where
  kept failed empty : Converted
  converted : Text → Converted

-- The maps that the loop works on, and the keys that are to be deleted from them.
pub record Maps : Type 0 where
  pub repo : Objects
  pub changed : Objects
  pub repo_deletes : List Text
  pub changed_deletes : List Text

-- The object that stands for a converted certificate.
unfoldable pub secret_of : Text → BaseObject → Text → BaseObject
secret_of key r bytes = record {
  source_name = r.source_name;
  bytes = bytes;
  kind = codes "Secret";
  meta = r.meta;
  original_key = key;
}

-- The update of the maps for one converted certificate.
unfoldable pub replace_certificate : Text → Text → BaseObject → Maps → Maps
replace_certificate key new_key o m =
    let repo_done = record m {
      repo = insert new_key o m.repo;
      repo_deletes = m.repo_deletes ++ key ∷ [];
    } in
    elim (lookup key m.changed) [
      | none ↦ repo_done
      | some _ ↦ record repo_done {
        changed = insert new_key o m.changed;
        changed_deletes = m.changed_deletes ++ key ∷ [];
      }
    ]

module _ (convert : Text → Text → Text → Converted) where
  -- The body of the loop; `none` is the panic of `parseKey`.
  unfoldable pub convert_entry : Text → Dict Text Text → Text → BaseObject → Maps → Option Maps
  convert_entry namespace commits key r m =
      if r.kind == codes "Certificate"
      then (let manifest : Text = elim (lookup key m.changed) [
        | some c ↦ c.bytes
        | none ↦ r.bytes
      ] in
          let commit : Text = elim (lookup key commits) [ some c ↦ c | none ↦ [] ] in
          elim (convert namespace manifest commit) [
            | kept ↦ some m
            | failed ↦ some m
            | empty ↦ some m
            | converted bytes ↦ elim (parse_key key) [
              | none ↦ none
              | some name ↦
                  some (replace_certificate key (codes "secret/" ++ name) (secret_of key r bytes) m)
            ]
          ])
      else some m

  -- The loop, over the entries that the repository had before it. The secrets that it adds may be
  -- visited too, and are left as they are.
  unfoldable pub convert_entries : Text → Dict Text Text → Objects → Maps → Option Maps
  convert_entries namespace commits [] m = some m
  convert_entries namespace commits ((key, r) ∷ entries) m =
      elim (convert_entry namespace commits key r m) [
        | none ↦ none
        | some m' ↦ convert_entries namespace commits entries m'
      ]

  -- `convertCertificateToSecret`, for the version of the certificate manager that is installed.
  unfoldable pub convert_certificate_to_secret :
      Text → Text → Dict Text Text → Objects → Objects → Option (Objects × Objects)
  convert_certificate_to_secret version namespace commits repo changed =
      if version == codes "1.1.1"
      then elim (convert_entries namespace commits repo
          (record { repo = repo; changed = changed; repo_deletes = []; changed_deletes = [] })) [
            | none ↦ none
            | some m ↦ some (erase_all m.repo_deletes m.repo, erase_all m.changed_deletes m.changed)
          ]
      else some (repo, changed)

-- Whether an object stands for a converted certificate.
unfoldable pub is_converted : BaseObject → Bool
is_converted r = r.kind == codes "Secret" && not (r.original_key == [])

-- `SetSourceKind("Certificate")` on such an object. The object is shared: with the actions and with the
-- errors of the synchronisation that name it.
unfoldable pub restore_kind : Text → BaseObject → BaseObject
restore_kind version r =
    if version == codes "1.1.1" && is_converted r
    then record r { kind = codes "Certificate" }
    else r

-- The loop of `convertSecretToCertificate`: the map and the keys to delete.
unfoldable pub restore_entries : Objects → Objects × List Text → Objects × List Text
restore_entries [] m = m
restore_entries ((key, r) ∷ entries) (changed, deletes) = restore_entries entries (
    if is_converted r
    then (
      insert r.original_key (record r { kind = codes "Certificate" }) changed,
      deletes ++ key ∷ [],
    )
    else (changed, deletes))

unfoldable pub convert_secret_to_certificate : Text → Objects → Objects
convert_secret_to_certificate version changed =
    if version == codes "1.1.1"
    then (let m = restore_entries changed (changed, []) in erase_all m.1 m.0)
    else changed
