-- ===== src/Cache/UseMetrics/Examples.antt =====
-- Tests of the registration of the metrics, and its theorem at a concrete input.
use coraza_kubernetes_operat.Prelude.{
  ◌&&◌, ◌==◌, ◌≡◌, refl, List, [], ◌∷◌, Option, none, some, if◌then◌else◌, length,
}
use coraza_kubernetes_operat.Controller.Errors.{GoError}
use coraza_kubernetes_operat.Cache.Server.{GarbageCollectionConfig}
use coraza_kubernetes_operat.Cache.UseMetrics.{
  Collector, Registerer, registry, RegistryState, gc_eq, err_use_metrics_registry_conflict,
  register_collectors, register_use_metrics, RegisterCall, register_all,
}
use coraza_kubernetes_operat.Cache.UseMetrics.Repeated.{register_use_metrics_again}

abbrev no_registrations : RegistryState
no_registrations = record { accepted = []; registrations = [] }

abbrev accepts : Registerer → List (Registerer × Collector) → Collector → Option GoError
accepts to accepted col = none

abbrev small : GarbageCollectionConfig
small = record { gc_interval = 1; max_age = 2; max_size = 3 }

-- Six collectors are registered once, for two calls.
registered_once :
    length
      (register_use_metrics accepts
        (registry 1)
        7
        small
        (register_use_metrics accepts (registry 1) 7 small no_registrations).1).1.accepted
    ≡ 6
unfolding register_use_metrics register_collectors
registered_once = refl

abbrev elsewhere : RegisterCall
elsewhere = record { registerer = registry 2; cache_number = 9; config = small }

register_use_metrics_again_example :
    let later =
      register_all accepts
        (elsewhere ∷ [])
        (register_use_metrics accepts (registry 1) 7 small no_registrations).1 in
    register_use_metrics accepts (registry 1) 8 small later
    ≡ (if 7 == 8 && gc_eq small small then none else some err_use_metrics_registry_conflict, later)
unfolding register_use_metrics register_collectors
register_use_metrics_again_example =
    register_use_metrics_again accepts 1 7 small no_registrations refl (elsewhere ∷ []) 8 small
