-- ===== src/Manifest/Tests.antt =====
-- The YAML documents of concrete inputs.
use choerodon_cluster_agent.Base.{
  ◌≡◌, refl, true, false, some, none, List, [], ◌∷◌, ◌++◌, arith, All, nat_eq, list_eq,
}
use choerodon_cluster_agent.Base.Dict.{Dict, lookup, insert}
use choerodon_cluster_agent.Base.Text.{Text, codes, has_prefix, index_of, index_byte, is_blank}
use choerodon_cluster_agent.Manifest.{
  BaseObject, Decoded, object, null, ok, resource_key, split_yaml_document, unmarshal_object,
  parse_chunks, parse_multidoc, scan_all, max_buffer, Entry, merge_docs, visit, ext_from,
  is_manifest, load_from, load,
}
use choerodon_cluster_agent.Manifest.Scanning.{join_docs, HasNoSeparator, scan_all-join_docs}
use choerodon_cluster_agent.Manifest.Filing.{IsFiled, parse_multidoc-IsFiled}
use choerodon_cluster_agent.Manifest.Loading.{IsLoaded, FromFile, load-exact}

-- An empty document is null, and any other is the name of a config map.
abbrev read_name : Text → BaseObject → Decoded
read_name [] o = null
read_name (c ∷ s) o = object (record o {
  kind = codes "ConfigMap";
  meta = record { namespace = codes "other"; name = c ∷ s; annotations = [] };
})

abbrev named : Text → Text → BaseObject
named source name = record {
  source_name = source;
  bytes = name;
  kind = codes "ConfigMap";
  meta = record { namespace = codes "prod"; name = name; annotations = [] };
  original_key = [];
}

abbrev two : Text
two = codes "a\n---\nb"

abbrev two_objects : Dict Text BaseObject
two_objects =
    (codes "configmap/a", named (codes "f.yaml") (codes "a"))
    ∷ (codes "configmap/b", named (codes "f.yaml") (codes "b"))
    ∷ []

two_parses : parse_multidoc read_name (codes "prod") two (codes "f.yaml") ≡ ok two_objects
unfolding parse_multidoc scan_all split_yaml_document index_of index_byte has_prefix is_blank
    parse_chunks unmarshal_object insert resource_key nat_eq list_eq
two_parses = refl

parse_multidoc-IsFiled_example : IsFiled (codes "prod") two_objects
parse_multidoc-IsFiled_example =
    parse_multidoc-IsFiled read_name (codes "prod") two (codes "f.yaml") two_objects two_parses

abbrev repository : List Entry
repository =
    record {
      path = codes "/repo/f.yaml";
      walk_error = false;
      is_dir = false;
      contents = some two;
      relative = some (codes "f.yaml");
    }
    ∷ record {
      path = codes "/repo/README.md";
      walk_error = false;
      is_dir = false;
      contents = some (codes "!");
      relative = some (codes "README.md");
    }
    ∷ []

repository_loads : load read_name (codes "prod") repository ≡ ok (two_objects, codes "f.yaml" ∷ [])
unfolding load load_from visit is_manifest ext_from merge_docs lookup parse_multidoc scan_all
    split_yaml_document index_of index_byte has_prefix is_blank parse_chunks unmarshal_object insert
    resource_key nat_eq list_eq
repository_loads = refl

load-exact_example :
    All (IsLoaded read_name (codes "prod") two_objects) repository
    × ((k : Text) (o : BaseObject)
        → lookup k two_objects ≡ some o
        → FromFile read_name (codes "prod") repository k o)
load-exact_example =
    load-exact read_name (codes "prod") repository two_objects (codes "f.yaml" ∷ [])
      repository_loads

a-HasNoSeparator : HasNoSeparator (codes "a")
unfolding index_of has_prefix nat_eq
a-HasNoSeparator = refl

b-HasNoSeparator : HasNoSeparator (codes "b")
unfolding index_of has_prefix nat_eq
b-HasNoSeparator = refl

scan_all-join_docs_example :
    scan_all 20 max_buffer (join_docs (codes "a" ∷ codes "a" ∷ []) (codes "b"))
    ≡ ((codes "a" ∷ codes "a" ∷ []) ++ codes "b" ∷ [], false)
scan_all-join_docs_example =
    scan_all-join_docs (codes "a" ∷ codes "a" ∷ []) b'b' [] 20 max_buffer
      (a-HasNoSeparator, (a-HasNoSeparator, tt)) b-HasNoSeparator (omega arith) (omega arith)

tail_unended : index_byte (codes " # end") 10 ≡ none
unfolding index_byte nat_eq
tail_unended = refl

first_found : (split_yaml_document two false).token ≡ some (codes "a")
unfolding split_yaml_document index_of index_byte has_prefix nat_eq
first_found = refl

first_found_at_end : (split_yaml_document two true).token ≡ some (codes "a")
unfolding split_yaml_document index_of index_byte has_prefix nat_eq
first_found_at_end = refl
