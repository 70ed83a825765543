-- ===== src/Manifest.antt =====
-- pkg/kubernetes/resource/resource.go and load.go: the objects of the configuration repository, and
-- how they are read from multi-document YAML.
pub mod Splitting
pub mod Scanning
pub mod Filing
pub mod Merging
pub mod Loading
mod Tests
use choerodon_cluster_agent.Base.{
  ℕ, zero, suc, ◌+◌, ◌-◌, Bool, true, false, not, ◌&&◌, ◌||◌, Option, none, some, List, [], ◌∷◌,
  ◌++◌, leb, ◌==◌, nat_eq, list_eq, if◌then◌else◌, length, take, drop,
}
use choerodon_cluster_agent.Base.Dict.{Dict, lookup, insert}
use choerodon_cluster_agent.Base.Text.{Text, codes, index_of, index_byte, is_blank}
use choerodon_cluster_agent.Resource.{ResourceId, make_resource_id, string}

-- `resource.Meta`
pub record Meta : Type 0 where
  pub namespace : Text
  pub name : Text
  pub annotations : Dict Text Text

-- `BaseObject`
pub record BaseObject : Type 0 where
  pub source_name : Text
  pub bytes : Text
  pub kind : Text
  pub meta : Meta
  pub original_key : Text

-- `BaseObject.ResourceID`
unfoldable pub resource_id : BaseObject → ResourceId
unfolding make_resource_id
resource_id o =
    make_resource_id (elim o.meta.namespace [ [] ↦ codes "default" | c ∷ ns ↦ c ∷ ns ]) o.kind
      o.meta.name

-- `obj.ResourceID().String()`, the key of an object in the maps.
unfoldable pub resource_key : BaseObject → Text
unfolding resource_id string
resource_key o = elim (string (resource_id o)) [ some key ↦ key | none ↦ [] ]

-- yamlSeparator: a line feed and three dashes.
abbrev pub yaml_separator : Text
yaml_separator = 10 ∷ b'-' ∷ b'-' ∷ b'-' ∷ []

-- What a `bufio.SplitFunc` returns when it returns no error; a nil token is `none`.
pub record Split : Type 0 where
  pub advance : ℕ
  pub token : Option Text

abbrev pub more : Split
more = record { advance = 0; token = none }

-- The part of `splitYAMLDocument` behind a separator that ends before `after`.
abbrev split_found : Text → Bool → ℕ → Text → Split
split_found d at_eof i [] =
    if at_eof then record { advance = length d; token = some (take (length d - 4) d) } else more
split_found d at_eof i (c ∷ after) = elim (index_byte (c ∷ after) 10) [
  | some j ↦ record { advance = i + j + 1; token = some (take (i - 4) d) }
  | none ↦ more
]

-- The part of it with no separator.
abbrev split_rest : Text → Bool → Split
split_rest d at_eof = if at_eof then record { advance = length d; token = some d } else more

-- `splitYAMLDocument`
unfoldable pub split_yaml_document : Text → Bool → Split
split_yaml_document [] true = more
split_yaml_document d at_eof = elim (index_of d yaml_separator) [
  | some i ↦ split_found d at_eof (i + 4) (drop (i + 4) d)
  | none ↦ split_rest d at_eof
]

-- How an operation of this file can fail; `nil_object` is the fault of a document that decodes to
-- null.
pub data Failure : Type 0 where
  too_long unmarshal nil_object walk unreadable not_under_base : Failure
  duplicate : Text → Failure

pub data Result {ℓ} (A : Type ℓ) : Type ℓ where
  ok : A → Result A
  err : Failure → Result A

-- The largest buffer that the scanner is allowed: 1024*1024.
abbrev pub max_buffer : ℕ
max_buffer = 1048576

-- The scanner gives up if a full buffer holds no whole document.
abbrev overflows : ℕ → Text → Bool
overflows limit d =
    leb limit (length d)
    && elim (split_yaml_document (take limit d) false).token [ none ↦ true | some _ ↦ false ]

-- `chunks.Scan()` until it returns false, from the text that is left: the documents, and whether the
-- scanner overflowed.
unfoldable pub scan_all : ℕ → ℕ → Text → List Text × Bool
scan_all zero limit d = ([], false)
scan_all (suc fuel) limit d =
    let s = split_yaml_document d true in
    elim (overflows limit d) [
      | true ↦ ([], true)
      | false ↦ elim s.token [
        | none ↦ ([], false)
        | some t ↦ let rest = scan_all fuel limit (drop s.advance d) in (t ∷ rest.0, rest.1)
      ]
    ]

-- What `yaml.Unmarshal` makes of a document and the object that it fills in.
pub data Decoded : Type 0 where
  failed null : Decoded
  object : BaseObject → Decoded

abbrev pub blank_object : Text → Text → BaseObject
blank_object source bytes = record {
  source_name = source;
  bytes = bytes;
  kind = [];
  meta = record { namespace = []; name = []; annotations = [] };
  original_key = [];
}

-- `decode` stands for `yaml.Unmarshal`.
module _ (decode : Text → BaseObject → Decoded) where
  -- `unmarshalObject`
  unfoldable pub unmarshal_object : Text → Text → Text → Result BaseObject
  unmarshal_object namespace source bytes = elim (decode bytes (blank_object source bytes)) [
    | failed ↦ err unmarshal
    | null ↦ err nil_object
    | object o ↦ ok (record o { meta = record (o.meta) { namespace = namespace } })
  ]

  -- The loop of `ParseMultidoc` over the scanned documents.
  unfoldable pub parse_chunks :
      Text → Text → List Text → Dict Text BaseObject → Result (Dict Text BaseObject)
  parse_chunks namespace source [] objs = ok objs
  parse_chunks namespace source (d ∷ ds) objs = elim (is_blank d) [
    | true ↦ parse_chunks namespace source ds objs
    | false ↦ elim (unmarshal_object namespace source d) [
      | err e ↦ err e
      | ok o ↦ parse_chunks namespace source ds (insert (resource_key o) o objs)
    ]
  ]

  -- `ParseMultidoc`. An overflow is reported after the documents before it have been parsed.
  unfoldable pub parse_multidoc : Text → Text → Text → Result (Dict Text BaseObject)
  parse_multidoc namespace multidoc source =
      let docs = scan_all (suc (length multidoc)) max_buffer multidoc in
      elim (parse_chunks namespace source docs.0 []) [
        | err e ↦ err e
        | ok objs ↦ if docs.1 then err too_long else ok objs
      ]

-- What `filepath.Walk` hands to its function for one path: the error of the walk, the `FileInfo`, the
-- contents that `ioutil.ReadFile` returns and the path relative to the base, if these succeed.
pub record Entry : Type 0 where
  pub path : Text
  pub walk_error : Bool
  pub is_dir : Bool
  pub contents : Option Text
  pub relative : Option Text

-- `filepath.Ext`: the part of a path from the last dot, if no slash follows it. `e` is that part of
-- what was read so far, empty if there is none.
abbrev ext_extend : Text → ℕ → Text
ext_extend [] c = []
ext_extend (d ∷ e) c = d ∷ e ++ c ∷ []

pub ext_from : Text → Text → Text
ext_from e [] = e
ext_from e (c ∷ s) =
    ext_from (if c == b'.' then c ∷ [] else if c == b'/' then [] else ext_extend e c) s

-- `!info.IsDir() && Ext == ".yaml" || Ext == ".yml"`
pub is_manifest : Entry → Bool
unfolding ext_from
is_manifest f =
    not f.is_dir && ext_from [] f.path == codes ".yaml" || ext_from [] f.path == codes ".yml"

-- The loop over `docsInFile`.
unfoldable pub merge_docs :
    Dict Text BaseObject → Dict Text BaseObject → Result (Dict Text BaseObject)
merge_docs [] objs = ok objs
merge_docs ((id, o) ∷ docs) objs = elim (lookup id objs) [
  | some defined ↦ err (duplicate id)
  | none ↦ merge_docs docs (insert id o objs)
]

module _ (decode : Text → BaseObject → Decoded) where
  -- The function that `Load` gives to `filepath.Walk`, on the objects and the files found so far.
  unfoldable pub visit :
      Text → Entry → Dict Text BaseObject × List Text → Result (Dict Text BaseObject × List Text)
  visit namespace f (objs, files) =
      if f.walk_error
      then err walk
      else if is_manifest f
      then elim f.contents [
        | none ↦ err unreadable
        | some bytes ↦ elim f.relative [
          | none ↦ err not_under_base
          | some source ↦ elim (parse_multidoc decode namespace bytes source) [
            | err e ↦ err e
            | ok docs ↦ elim (merge_docs docs objs) [
              | err e ↦ err e
              | ok merged ↦ ok (merged, files ++ source ∷ [])
            ]
          ]
        ]
      ]
      else ok (objs, files)

  -- `Load`, over the paths that the walks of all its roots visit, in order. Where it fails the caller
  -- drops the objects found so far, and so does the model.
  unfoldable pub load_from :
      Text
      → List Entry
      → Dict Text BaseObject × List Text
      → Result (Dict Text BaseObject × List Text)
  load_from namespace [] found = ok found
  load_from namespace (f ∷ fs) found = elim (visit namespace f found) [
    | err e ↦ err e
    | ok found' ↦ load_from namespace fs found'
  ]

  unfoldable pub load : Text → List Entry → Result (Dict Text BaseObject × List Text)
  load namespace fs = load_from namespace fs ([], [])
