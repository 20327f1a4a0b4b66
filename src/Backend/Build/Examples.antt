-- ===== src/Backend/Build/Examples.antt =====
-- A backend with iSCSI in the region "a".
use e_sdk_k8s_plugin.Prelude.{true, false, none, [], ◌∷◌, ◌≡◌, refl, ap, head, tail}
use e_sdk_k8s_plugin.Prelude.Dict.{lookup}
use e_sdk_k8s_plugin.Backend.Model.{
  text, object, array, item, stop, close, field, Parameters, Backend, World, set_pool, text_param,
  is_dtree_storage,
}
use e_sdk_k8s_plugin.Backend.Sample.{a_backend, region, world}
use e_sdk_k8s_plugin.Prelude.Result.{Result, ok}
use e_sdk_k8s_plugin.Backend.Topology.{is_protocol, is_topology_supported_by_backend}
use e_sdk_k8s_plugin.Backend.Build.{
  new_backend, get_supported_topologies, is_bad_metro, field_at, add_protocol_topology,
  protocol_key, protocol_topologies, BuildError, new_pool, pool_names, allocate_pools,
  analyze_pools,
}
use e_sdk_k8s_plugin.Backend.Build.Whole.{Setting, IsReady, build_backend, build_backend-IsReady}
use e_sdk_k8s_plugin.Backend.Cache.{Content}
use e_sdk_k8s_plugin.Backend.Build.Topologies.{IsPlain, add_protocol_topology-supports}

abbrev iscsi : Backend
iscsi = record (a_backend "a" true [] none) { parameters = field "protocol" (text "iscsi") close }

abbrev with_protocol : Backend
with_protocol = record iscsi {
  supported_topologies =
      protocol_topologies (protocol_key "iscsi") "csi.huawei.com" (region "a" ∷ []);
}

region-IsPlain : IsPlain (region "a")
region-IsPlain k v (head e) = ap is_protocol e
region-IsPlain k v (tail m) = elim m [ ]

add_protocol_topology-supports_example :
    is_topology_supported_by_backend with_protocol.supported_topologies
      ((protocol_key "iscsi", "csi.huawei.com") ∷ region "a")
    ≡ true
unfolding field_at is_topology_supported_by_backend add_protocol_topology lookup
add_protocol_topology-supports_example =
    add_protocol_topology-supports "csi.huawei.com" iscsi with_protocol "iscsi" (region "a") refl
      region-IsPlain refl refl

abbrev config : Parameters
config =
    ("storage", text "oceanstor-san")
    ∷ ("parameters", object (field "protocol" (text "iscsi") close))
    ∷ ("hyperMetroDomain", text "d")
    ∷ ("metroBackend", text "y")
    ∷ []

abbrev built : Backend
built = record (a_backend "x" false [] none) {
  content_name = "";
  supported_topologies = [];
  parameters = field "protocol" (text "iscsi") close;
  metro_domain = "d";
  metro_backend_name = "y";
}

abbrev full_config : Parameters
full_config = ("pools", array (item (text "p0") (item (text "") stop))) ∷ config

abbrev setting : Setting
setting = record {
  get_plugin = λ s. 1;
  split_key = λ s. ok ("ns", s);
  get_info = λ ns name content. ok full_config;
  init = λ plugin config parameters. none;
  driver_name = "csi.huawei.com";
}

abbrev content : Content
content = record { backend_claim = "x"; configmap_meta = "m"; secret_meta = "s"; status = none }

abbrev built_whole : World × Result BuildError Backend
built_whole = (
  record (set_pool world 4 (new_pool built "p0")) { next_pool = 5 },
  ok (record built {
    pools = 4 ∷ [];
    supported_topologies = ((protocol_key "iscsi", "csi.huawei.com") ∷ []) ∷ [];
  }),
)

-- The pool with no name is left out.
built_from_content : build_backend setting content world ≡ built_whole
unfolding build_backend new_backend get_supported_topologies is_bad_metro text_param lookup
    analyze_pools pool_names allocate_pools is_dtree_storage add_protocol_topology field_at
    protocol_topologies
built_from_content = refl

build_backend-IsReady_example : IsReady setting (record built {
  pools = 4 ∷ [];
  supported_topologies = ((protocol_key "iscsi", "csi.huawei.com") ∷ []) ∷ [];
})
build_backend-IsReady_example =
    build_backend-IsReady setting content world built_whole.0 _ built_from_content
