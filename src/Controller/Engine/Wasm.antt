-- ===== src/Controller/Engine/Wasm.antt =====
-- internal/controller/engine_controller_wasm_driver.go: the WasmPlugin of an Engine.
use coraza_kubernetes_operat.Prelude.{
  Bool, true, false, Option, none, some, [], ◌∷◌, ◌++◌, if◌then◌else◌,
}
use coraza_kubernetes_operat.Prelude.Bytes.{Bytes, bytes, bytes_eq}
use coraza_kubernetes_operat.Controller.Errors.{slash}
use coraza_kubernetes_operat.Controller.Policies.{PolicyApi, target_label_selector, or_empty}
use coraza_kubernetes_operat.Controller.Engine.{EngineObject, EngineConfig, WasmPlugin}

abbrev pub wasm_plugin_name_prefix : Bytes
wasm_plugin_name_prefix = bytes "coraza-engine-"

abbrev unless_empty : Bytes → Option Bytes
unless_empty [] = none
unless_empty (c ∷ s) = some (c ∷ s)

abbrev or_default : Bytes → Bytes → Bytes
or_default value [] = value
or_default value (c ∷ s) = c ∷ s

-- The URL, and whether the Engine names it.
unfoldable pub wasm_plugin_oci_url_source : EngineConfig → EngineObject → Bytes × Bool
wasm_plugin_oci_url_source config e =
    if bytes_eq e.image [] then (config.default_wasm_image, false) else (e.image, true)

unfoldable pub build_wasm_plugin :
    PolicyApi → EngineConfig → EngineObject → Bytes → Bytes → WasmPlugin
build_wasm_plugin api config e url cache_token = record {
  name = wasm_plugin_name_prefix ++ e.engine.name;
  namespace = e.engine.namespace;
  url = url;
  cache_server_instance = e.engine.namespace ++ slash ∷ e.rule_set;
  cache_server_cluster = config.rule_set_cache_server_cluster;
  failure_policy = or_default (bytes "fail") e.failure_policy;
  cache_token = cache_token;
  rule_reload_interval_seconds = e.poll_interval;
  match_labels = or_empty api (target_label_selector api e.engine);
  image_pull_secret = unless_empty e.image_pull_secret;
  istio_rev = unless_empty config.istio_revision;
}
