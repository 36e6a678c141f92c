-- ===== src/Cache/UseMetrics/Repeated.antt =====
-- RegisterUSEMetrics of internal/rulesets/cache/metrics_use.go: calls for a registry that is registered.
use coraza_kubernetes_operat.Prelude.{
  ℕ, Bool, true, false, ◌&&◌, ◌≡◌, ◌∙◌, refl, ap, subst, List, [], ◌∷◌, Option, none, some,
  if◌then◌else◌, ◌==◌, arith, Bool-cases, inl, inr,
}
use coraza_kubernetes_operat.Controller.Errors.{GoError}
use coraza_kubernetes_operat.Cache.Server.{GarbageCollectionConfig}
use coraza_kubernetes_operat.Cache.UseMetrics.{
  Collector, UseMetricsRegistration, Registerer, registry, other_registerer, RegistryState,
  registration_of, gc_eq, err_use_metrics_registry_conflict, recorded, register_once,
  register_use_metrics, RegisterCall, register_all,
}

eq_sound : (q r : ℕ) → (q == r) ≡ true → q ≡ r
eq_sound q r e = ground (arith, e)

gc_eq_sound : (a b : GarbageCollectionConfig) → gc_eq a b ≡ true → a ≡ b
gc_eq_sound a b h = cc (interval, age, size)
  where
    interval : a.gc_interval ≡ b.gc_interval
    interval = ground (arith, h)

    age : a.max_age ≡ b.max_age
    age = ground (arith, h)

    size : a.max_size ≡ b.max_size
    size = ground (arith, h)

module _ (register : Registerer → List (Registerer × Collector) → Collector → Option GoError) where
  recorded_kept :
      (q r : ℕ) (reg prev : UseMetricsRegistration) (regs : List (ℕ × UseMetricsRegistration))
      (done : Option GoError × List (Registerer × Collector))
      → registration_of r regs ≡ some prev
      → registration_of q regs ≡ none
      → registration_of r (recorded register q reg regs done).1.registrations ≡ some prev
  recorded_kept q r reg prev regs (some e, accepted) h n = h
  recorded_kept q r reg prev regs (none, accepted) h n = elim (Bool-cases (q == r)) [
    | inl e ↦ absurd (cc (h, subst (λ x. registration_of x regs ≡ none) (eq_sound q r e) n))
    | inr e ↦ rw e h
  ]

  once_kept :
      (q r c : ℕ) (gc : GarbageCollectionConfig) (prev : UseMetricsRegistration)
      (known : Option UseMetricsRegistration) (s : RegistryState)
      → registration_of q s.registrations ≡ known
      → registration_of r s.registrations ≡ some prev
      → registration_of r (register_once register q c gc known s).1.registrations ≡ some prev
  once_kept q r c gc prev (some reg) s k h = ground (arith, h)
  once_kept q r c gc prev none s k h = recorded_kept q r _ prev s.registrations _ h k

  use_metrics_kept :
      (to : Registerer) (r c : ℕ) (gc : GarbageCollectionConfig) (prev : UseMetricsRegistration)
      (s : RegistryState)
      → registration_of r s.registrations ≡ some prev
      → registration_of r (register_use_metrics register to c gc s).1.registrations ≡ some prev
  unfolding register_use_metrics
  use_metrics_kept (registry q) r c gc prev s h = once_kept q r c gc prev _ s refl h
  use_metrics_kept (other_registerer n) r c gc prev s h = h

  all_kept :
      (calls : List RegisterCall) (r : ℕ) (prev : UseMetricsRegistration) (s : RegistryState)
      → registration_of r s.registrations ≡ some prev
      → registration_of r (register_all register calls s).registrations ≡ some prev
  unfolding register_all
  all_kept [] r prev s h = h
  all_kept (k ∷ calls) r prev s h =
      all_kept calls r prev (register_use_metrics register k.registerer k.cache_number k.config s).1
        (use_metrics_kept k.registerer r k.cache_number k.config prev s h)

  recorded_first :
      (r : ℕ) (reg : UseMetricsRegistration) (regs : List (ℕ × UseMetricsRegistration))
      (done : Option GoError × List (Registerer × Collector))
      → (recorded register r reg regs done).0 ≡ none
      → registration_of r (recorded register r reg regs done).1.registrations ≡ some reg
  recorded_first r reg regs (some e, accepted) h = absurd (cc h)
  recorded_first r reg regs (none, accepted) h = ground arith

  once_registered :
      (r c : ℕ) (gc : GarbageCollectionConfig) (known : Option UseMetricsRegistration)
      (s : RegistryState)
      → registration_of r s.registrations ≡ known
      → (register_once register r c gc known s).0 ≡ none
      → registration_of r (register_once register r c gc known s).1.registrations
        ≡ some (record { registered_cache = c; gc = gc })
  once_registered r c gc none s k h = recorded_first r _ s.registrations _ h
  once_registered r c gc (some prev) s k h =
      picked (prev.registered_cache == c && gc_eq prev.gc gc) refl h
    where
      same :
          (prev.registered_cache == c && gc_eq prev.gc gc) ≡ true
          → prev ≡ record { registered_cache = c; gc = gc }
      same t = cc (
        eq_sound prev.registered_cache c (ground (arith, t)),
        gc_eq_sound prev.gc gc (ground (arith, t)),
      )

      outcome : Bool → Option GoError × RegistryState
      outcome b = if b then (none, s) else (some err_use_metrics_registry_conflict, s)

      picked :
          (b : Bool)
          → (prev.registered_cache == c && gc_eq prev.gc gc) ≡ b
          → (outcome b).0 ≡ none
          → registration_of r (outcome b).1.registrations
            ≡ some (record { registered_cache = c; gc = gc })
      picked true t e = k ∙ ap some (same t)
      picked false t e = absurd (cc e)

answered :
    (register : Registerer → List (Registerer × Collector) → Collector → Option GoError) (r c : ℕ)
    (gc : GarbageCollectionConfig) (c' : ℕ) (gc' : GarbageCollectionConfig) (s : RegistryState)
    → registration_of r s.registrations ≡ some (record { registered_cache = c; gc = gc })
    → register_once register r c' gc' (registration_of r s.registrations) s
      ≡ (if c == c' && gc_eq gc gc' then none else some err_use_metrics_registry_conflict, s)
answered register r c gc c' gc' s h =
    ap (λ known. register_once register r c' gc' known s) h ∙ chosen (c == c' && gc_eq gc gc')
  where
    outcome : Bool → Option GoError × RegistryState
    outcome b = if b then (none, s) else (some err_use_metrics_registry_conflict, s)

    chosen :
        (b : Bool) → outcome b ≡ (if b then none else some err_use_metrics_registry_conflict, s)
    chosen true = refl
    chosen false = refl

-- Once RegisterUSEMetrics has returned nil for a registry, every later call for it, whatever calls
-- stand between, changes nothing: it returns nil for the same cache and an equal configuration, and
-- the error of a conflict otherwise.
pub register_use_metrics_again :
    (register : Registerer → List (Registerer × Collector) → Collector → Option GoError) (r c : ℕ)
    (gc : GarbageCollectionConfig) (s : RegistryState)
    → (register_use_metrics register (registry r) c gc s).0 ≡ none
    → (calls : List RegisterCall) (c' : ℕ) (gc' : GarbageCollectionConfig)
    → let later =
        register_all register calls (register_use_metrics register (registry r) c gc s).1 in
      register_use_metrics register (registry r) c' gc' later
      ≡ (if c == c' && gc_eq gc gc' then none else some err_use_metrics_registry_conflict, later)
unfolding register_use_metrics
register_use_metrics_again register r c gc s h calls c' gc' =
    answered register r c gc c' gc'
      (register_all register calls (register_use_metrics register (registry r) c gc s).1)
      (all_kept register calls r _ (register_use_metrics register (registry r) c gc s).1
        (once_registered register r c gc _ s refl h))
