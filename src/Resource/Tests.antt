-- ===== src/Resource/Tests.antt =====
-- Identifiers at concrete inputs.
use choerodon_cluster_agent.Base.{◌≡◌, refl, some, ◌∷◌, ◌++◌, nat_eq}
use choerodon_cluster_agent.Base.Text.{Text, codes}
use choerodon_cluster_agent.Resource.{
  word_byte, string, ResourceId, legacy, qualified, parse_resource_id,
  parse_resource_id_optional_namespace, make_resource_id, resource_id_eq,
}
use choerodon_cluster_agent.Resource.Parsing.{IsWord, parse-string}

abbrev prod : Text
prod = codes "prod-1"

abbrev kind : Text
kind = codes "Deployment"

abbrev web : Text
web = codes "web"

prod-IsWord : IsWord prod
unfolding word_byte nat_eq
prod-IsWord = refl

kind-IsWord : IsWord kind
unfolding word_byte nat_eq
kind-IsWord = refl

web-IsWord : IsWord web
unfolding word_byte nat_eq
web-IsWord = refl

parse-string_example :
    (text : Text) × (string (make_resource_id prod kind web) ≡ some text)
    × (parse_resource_id_optional_namespace prod text ≡ some (make_resource_id prod kind web))
    × (parse_resource_id_optional_namespace web (prod ++ b':' ∷ text)
        ≡ some (make_resource_id prod kind web))
    × (parse_resource_id (prod ++ b':' ∷ text) ≡ some (make_resource_id prod kind web))
parse-string_example = parse-string web prod kind web prod-IsWord kind-IsWord web-IsWord

abbrev first : ResourceId
first = qualified prod kind web

abbrev second : ResourceId
second = legacy prod web
