-- ===== src/Cache/UseMetrics.antt =====
-- internal/rulesets/cache/metrics_use.go: the registration of the metrics of the cache.
-- A *prometheus.Registry and a *RuleSetCache are numbers, which are compared as pointers are. What a
-- registry answers to a collector depends on those that it already has; it is a parameter.
pub mod Repeated
mod Examples
use coraza_kubernetes_operat.Prelude.{
  ℕ, Bool, true, false, ◌&&◌, List, [], ◌∷◌, ◌++◌, Option, none, some, if◌then◌else◌, ◌==◌,
}
use coraza_kubernetes_operat.Prelude.Bytes.{bytes}
use coraza_kubernetes_operat.Controller.Errors.{GoError, plain_error}
use coraza_kubernetes_operat.Cache.Server.{GarbageCollectionConfig}

-- The gauges that read a cache or a configuration, and the counters that all registries share.
pub data Collector : Type 0 where
  cache_size_bytes cache_instances cache_total_entries : ℕ → Collector
  cache_config_max_size_bytes : GarbageCollectionConfig → Collector
  gc_pruned_entries_total gc_size_limit_exceeded_total : Collector

pub record UseMetricsRegistration : Type 0 where
  pub registered_cache : ℕ
  pub gc : GarbageCollectionConfig

-- A Registerer is a registry, or something else that has a number as well.
pub data Registerer : Type 0 where
  registry other_registerer : ℕ → Registerer

-- The collectors that were accepted, each with its registerer, and the map
-- registeredUSEMetricsByPromRegistry.
pub record RegistryState : Type 0 where
  pub accepted : List (Registerer × Collector)
  pub registrations : List (ℕ × UseMetricsRegistration)

abbrev pub registration_of : ℕ → List (ℕ × UseMetricsRegistration) → Option UseMetricsRegistration
registration_of r [] = none
registration_of r ((q, reg) ∷ regs) = if q == r then some reg else registration_of r regs

abbrev pub gc_eq : GarbageCollectionConfig → GarbageCollectionConfig → Bool
gc_eq a b = a.gc_interval == b.gc_interval && (a.max_age == b.max_age && a.max_size == b.max_size)

abbrev pub collectors : ℕ → GarbageCollectionConfig → List Collector
collectors c gc =
    cache_size_bytes c
    ∷ cache_instances c
    ∷ cache_total_entries c
    ∷ cache_config_max_size_bytes gc
    ∷ gc_pruned_entries_total
    ∷ gc_size_limit_exceeded_total
    ∷ []

abbrev pub err_use_metrics_registry_conflict : GoError
err_use_metrics_registry_conflict = plain_error (
    bytes
      "USE metrics already registered for this registry with a different RuleSetCache or GarbageCollectionConfig")

pub record RegisterCall : Type 0 where
  pub registerer : Registerer
  pub cache_number : ℕ
  pub config : GarbageCollectionConfig

module _ (register : Registerer → List (Registerer × Collector) → Collector → Option GoError) where
  -- The collectors that were accepted before an error stay.
  unfoldable pub register_collectors :
      Registerer
      → List Collector
      → List (Registerer × Collector)
      → Option GoError × List (Registerer × Collector)
  register_collectors to [] accepted = (none, accepted)
  register_collectors to (col ∷ cols) accepted =
      let rest = register_collectors to cols (accepted ++ (to, col) ∷ []) in
      elim (register to accepted col) [ none ↦ rest | some e ↦ (some e, accepted) ]

  abbrev pub recorded :
      ℕ
      → UseMetricsRegistration
      → List (ℕ × UseMetricsRegistration)
      → Option GoError × List (Registerer × Collector)
      → Option GoError × RegistryState
  recorded r reg regs (some e, accepted) =
      (some e, record { accepted = accepted; registrations = regs })
  recorded r reg regs (none, accepted) =
      (none, record { accepted = accepted; registrations = (r, reg) ∷ regs })

  abbrev pub unrecorded :
      List (ℕ × UseMetricsRegistration)
      → Option GoError × List (Registerer × Collector)
      → Option GoError × RegistryState
  unrecorded regs (error, accepted) = (error, record { accepted = accepted; registrations = regs })

  abbrev pub register_once :
      ℕ
      → ℕ
      → GarbageCollectionConfig
      → Option UseMetricsRegistration
      → RegistryState
      → Option GoError × RegistryState
  register_once r c gc (some prev) s =
      if prev.registered_cache == c && gc_eq prev.gc gc
      then (none, s)
      else (some err_use_metrics_registry_conflict, s)
  register_once r c gc none s =
      recorded r (record { registered_cache = c; gc = gc }) s.registrations
        (register_collectors (registry r) (collectors c gc) s.accepted)

  unfoldable pub register_use_metrics :
      Registerer → ℕ → GarbageCollectionConfig → RegistryState → Option GoError × RegistryState
  register_use_metrics (registry r) c gc s =
      register_once r c gc (registration_of r s.registrations) s
  register_use_metrics (other_registerer n) c gc s =
      unrecorded s.registrations
        (register_collectors (other_registerer n) (collectors c gc) s.accepted)

  -- Calls one after the other, as registerMu makes them.
  unfoldable pub register_all : List RegisterCall → RegistryState → RegistryState
  register_all [] s = s
  register_all (k ∷ calls) s =
      register_all calls (register_use_metrics k.registerer k.cache_number k.config s).1
