-- ===== src/Controller/Engine/Phase.antt =====
-- What the conditions say when the provisioning of an Engine ends.
use coraza_kubernetes_operat.Prelude.{
  ℕ, ◌≤◌, ◌-◌, Bool, true, false, ◌≡◌, ◌⊎◌, inl, inr, refl, ap, Option, none, some, List, [], ◌∷◌,
  arith, if◌then◌else◌, ◌||◌, ltb,
}
use coraza_kubernetes_operat.Prelude.Bytes.{Bytes, bytes, bytes_eq}
use coraza_kubernetes_operat.Prelude.Assoc.{Assoc}
use coraza_kubernetes_operat.Controller.Conditions.{
  Condition, ConditionList, Cause, apply_status_ready, apply_status_condition_degraded,
}
use coraza_kubernetes_operat.Controller.Conditions.Phases.{
  IsReady, IsDegraded, apply_status_ready-IsReady, apply_status_condition_degraded-IsDegraded,
}
use coraza_kubernetes_operat.Controller.Errors.{GoError}
use coraza_kubernetes_operat.Controller.RuleSet.{
  World, patch_ready, patch_degraded, patched, emit, normal, warning,
}
use coraza_kubernetes_operat.Controller.Policies.{
  Creation, created_as, not_created, target_label_selector,
}
use coraza_kubernetes_operat.Controller.Tokens.{TokenResult, has_token, no_token}
use coraza_kubernetes_operat.Controller.Engine.{
  EngineObject, EngineConfig, WasmPlugin, EngineCluster, EngineClock, EngineWorld, Outcome,
  engine_cause, fails,
}
use coraza_kubernetes_operat.Controller.Engine.Provision.{
  degrade, after_ready, after_apply, after_token, apply_wasm_plugin, after_account, after_policy,
  with_selector, provision_wasm_driver, select_driver, handle_invalid_driver_configuration, invalid,
  ensure_cache_client_service_account, or_error, second_of_time,
}

module _ (api : ConditionList) (config : EngineConfig) (cluster : EngineCluster)
    (clock : EngineClock) (e : EngineObject) (w : EngineWorld) where
  abbrev configured : Cause
  configured =
      engine_cause e clock (bytes "Configured") (bytes "WasmPlugin successfully created/updated")

  -- The API refused the patch of the status that says that the Engine is ready or degraded.
  abbrev Refused : Type 0
  Refused =
      (cs : List Condition) × (p : GoError) × (cluster.patch_status cs ≡ some p)
      × (IsReady api cs configured
          ⊎ ((reason message : Bytes) × IsDegraded api cs (engine_cause e clock reason message)))

  -- Without an error the plugin has been applied, the Engine is ready, for its generation, and the next
  -- run is due in a second or more. With an error the Engine is degraded, or the API refused the patch
  -- of its status and its conditions are those before.
  unfoldable pub IsSettled : Outcome × EngineWorld → Type 0
  IsSettled (o, w') =
      ((o.error ≡ none)
        × ((p : WasmPlugin) × (w'.plugin ≡ some p) × (cluster.apply_plugin p ≡ none))
        × IsReady api w'.status.conditions configured
        × (second_of_time ≤ o.requeue_after))
      ⊎ ((err : GoError) × (o.error ≡ some err)
          × (((w'.status.conditions ≡ w.status.conditions) × Refused)
              ⊎ ((reason message : Bytes) × IsDegraded api w'.status.conditions
                    (engine_cause e clock reason message))))

  degrade-IsSettled :
      (reason message : Bytes) (err : GoError) (v : EngineWorld)
      → v.status ≡ w.status
      → IsSettled (degrade api config cluster clock e reason message err v)
  unfolding patch_degraded IsSettled
  degrade-IsSettled reason message err v h = go (cluster.patch_status after) refl
    where
      cause : Cause
      cause = engine_cause e clock reason message

      after : List Condition
      after = apply_status_condition_degraded api v.status.conditions cause

      patch : Option GoError → Option GoError × World
      patch o = patched api cluster.patch_status after o (emit v.status warning reason message)

      go :
          (o : Option GoError)
          → cluster.patch_status after ≡ o
          → IsSettled (fails (or_error (patch o).0 err), record v { status = (patch o).1 })
      go (some p) q = inr (
        p,
        refl,
        inl (
          ap (λ (s : World). s.conditions) h,
          (
            after,
            p,
            q,
            inr (
              reason,
              message,
              apply_status_condition_degraded-IsDegraded api v.status.conditions cause,
            ),
          ),
        ),
      )
      go none q = inr (
        err,
        refl,
        inr (
          reason,
          message,
          apply_status_condition_degraded-IsDegraded api v.status.conditions cause,
        ),
      )

  long_enough :
      (wait : ℕ) → second_of_time ≤ (if ltb wait second_of_time then second_of_time else wait)
  long_enough wait = ground arith

  after_apply-IsSettled :
      (p : WasmPlugin) (renew_at : ℕ) (o : Option GoError) (v : EngineWorld)
      → cluster.apply_plugin p ≡ o
      → v.status ≡ w.status
      → IsSettled (after_apply api config cluster clock e p renew_at o v)
  unfolding patch_ready IsSettled
  after_apply-IsSettled p renew_at (some err) v a h = degrade-IsSettled _ _ err v h
  after_apply-IsSettled p renew_at none v a h = go (cluster.patch_status after) refl
    where
      after : List Condition
      after = apply_status_ready api v.status.conditions configured

      go :
          (o : Option GoError)
          → cluster.patch_status after ≡ o
          → IsSettled (
              after_ready api config cluster clock e p renew_at
                (patched api cluster.patch_status after o
                  (emit v.status normal configured.reason configured.message))
                (record v { plugin = some p }))
      go (some err) q = inr (
        err,
        refl,
        inl (
          ap (λ (s : World). s.conditions) h,
          (after, err, q, inl (apply_status_ready-IsReady api v.status.conditions configured)),
        ),
      )
      go none q = inl (
        refl,
        (p, refl, a),
        apply_status_ready-IsReady api v.status.conditions configured,
        long_enough (renew_at - clock.scheduled),
      )

  after_token-IsSettled :
      (r : TokenResult) (v : EngineWorld)
      → v.status ≡ w.status
      → IsSettled (after_token api config cluster clock e r v)
  after_token-IsSettled (no_token err) v h = degrade-IsSettled _ _ err v h
  after_token-IsSettled (has_token [] renew_at) v h = degrade-IsSettled _ _ _ v h
  after_token-IsSettled (has_token (c ∷ token) renew_at) v h =
      after_apply-IsSettled _ renew_at (apply_wasm_plugin api config cluster clock e (c ∷ token)).1
        v refl h

  after_account-IsSettled :
      (a : Creation) (v : EngineWorld)
      → v.status ≡ w.status
      → IsSettled (after_account api config cluster clock e a v)
  after_account-IsSettled (not_created err) v h = degrade-IsSettled _ _ err v h
  after_account-IsSettled (created_as sa) v h = after_token-IsSettled _ _ h

  after_policy-IsSettled :
      (o : Option GoError) (v : EngineWorld)
      → v.status ≡ w.status
      → IsSettled (after_policy api config cluster clock e o v)
  after_policy-IsSettled (some err) v h = degrade-IsSettled _ _ err v h
  after_policy-IsSettled none v h =
      after_account-IsSettled (ensure_cache_client_service_account api config cluster clock e) v h

  invalid-IsSettled :
      (reason message : Bytes) (err : GoError)
      → IsSettled (
          invalid api config cluster clock err
            (patch_degraded api cluster.patch_status (engine_cause e clock reason message) w.status)
            w)
  unfolding patch_degraded IsSettled
  invalid-IsSettled reason message err = go (cluster.patch_status after) refl
    where
      cause : Cause
      cause = engine_cause e clock reason message

      after : List Condition
      after = apply_status_condition_degraded api w.status.conditions cause

      go :
          (o : Option GoError)
          → cluster.patch_status after ≡ o
          → IsSettled (
              invalid api config cluster clock err
                (patched api cluster.patch_status after o (emit w.status warning reason message))
                w)
      go (some p) q = inr (
        _,
        refl,
        inl (
          refl,
          (
            after,
            p,
            q,
            inr (
              reason,
              message,
              apply_status_condition_degraded-IsDegraded api w.status.conditions cause,
            ),
          ),
        ),
      )
      go none q = inr (
        err,
        refl,
        inr (
          reason,
          message,
          apply_status_condition_degraded-IsDegraded api w.status.conditions cause,
        ),
      )

  -- Whatever the API answers and whatever the driver is, the provisioning of an Engine ends in one of
  -- these ways. Without an error the API has accepted the plugin that the Engine has, the Engine is ready,
  -- for its generation, and the next run is due in a second or more. With an error the Engine is
  -- degraded, for its generation, or the API has refused the patch of a status that is degraded or
  -- ready, for its generation, and the conditions are as they were.
  pub select_driver-IsSettled : IsSettled (select_driver api config cluster clock e w)
  unfolding select_driver provision_wasm_driver
  select_driver-IsSettled =
      choose (bytes_eq e.driver_type [] || bytes_eq e.driver_type (bytes "wasm"))
    where
      go : (s : Option (Assoc Bytes)) → IsSettled (with_selector api config cluster clock e s w)
      go none = degrade-IsSettled _ _ _ w refl
      go (some labels) = after_policy-IsSettled _ _ refl

      choose :
          (b : Bool)
          → IsSettled (
              if b
              then provision_wasm_driver api config cluster clock e w
              else handle_invalid_driver_configuration api config cluster clock e w)
      choose true = go (target_label_selector cluster.policy_api e.engine)
      choose false = invalid-IsSettled _ _ _
