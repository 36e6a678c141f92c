-- ===== src/Controller/Engine/Order.antt =====
-- What stands before a plugin runs.
use coraza_kubernetes_operat.Prelude.{
  ℕ, Bool, true, false, ◌≡◌, ◌≢◌, ◌⊎◌, inl, inr, refl, sym, ap, Option, none, some, [], ◌∷◌, arith,
  if◌then◌else◌, ◌||◌,
}
use coraza_kubernetes_operat.Prelude.Bytes.{Bytes, bytes, bytes_eq}
use coraza_kubernetes_operat.Prelude.Assoc.{Assoc, IsMap}
use coraza_kubernetes_operat.Controller.Conditions.{ConditionList}
use coraza_kubernetes_operat.Controller.Errors.{GoError}
use coraza_kubernetes_operat.Controller.RuleSet.{World}
use coraza_kubernetes_operat.Controller.Policies.{
  Policies, Creation, created_as, not_created, target_label_selector,
}
use coraza_kubernetes_operat.Controller.Policies.Apply.{Applied, apply_network_policy-Applied}
use coraza_kubernetes_operat.Controller.Tokens.{
  TokenResult, has_token, no_token, ensure_cache_token,
}
use coraza_kubernetes_operat.Controller.Engine.{
  EngineObject, EngineConfig, WasmPlugin, EngineCluster, EngineClock, EngineWorld, Outcome,
}
use coraza_kubernetes_operat.Controller.Engine.Wasm.{wasm_plugin_oci_url_source, build_wasm_plugin}
use coraza_kubernetes_operat.Controller.Engine.Provision.{
  after_ready, after_apply, after_token, token_call, after_account, after_policy, with_selector,
  provision_wasm_driver, select_driver, handle_invalid_driver_configuration, invalid,
  ensure_cache_client_service_account,
}

module _ (api : ConditionList) (config : EngineConfig) (cluster : EngineCluster)
    (clock : EngineClock) (e : EngineObject) (w : EngineWorld) where
  -- The plugin of a world, and what it rests on in the world `w` before it.
  pub record Guarded (w' : EngineWorld) : Type 0 where
    pub sa : Bytes
    pub token : Bytes
    pub renew_at : ℕ
    pub token_given : token ≢ []
    pub issued :
        (ensure_cache_token cluster.create_token
          (token_call api config cluster clock e sa)
          w.tokens).0
        ≡ has_token token renew_at
    pub is_plugin :
        w'.plugin
        ≡ some (
            build_wasm_plugin cluster.policy_api config e
              (wasm_plugin_oci_url_source config e).0
              token)
    pub policy : Applied cluster.policy_api e.engine w.policies w'.policies

  unfoldable pub IsSafe : Outcome × EngineWorld → Type 0
  IsSafe (o, w') = (w'.plugin ≡ w.plugin) ⊎ Guarded w'

  after_ready-IsSafe :
      (p : WasmPlugin) (renew_at : ℕ) (r : Option GoError × World) (v : EngineWorld)
      → ((status : World) → Guarded (record v { status = status }))
      → IsSafe (after_ready api config cluster clock e p renew_at r v)
  unfolding IsSafe
  after_ready-IsSafe p renew_at (some err, status) v h = inr (h status)
  after_ready-IsSafe p renew_at (none, status) v h = inr (h _)

  after_token-IsSafe :
      (sa : Bytes) (r : TokenResult) (v : EngineWorld)
      → v.plugin ≡ w.plugin
      → Applied cluster.policy_api e.engine w.policies v.policies
      → (ensure_cache_token cluster.create_token
          (token_call api config cluster clock e sa)
          w.tokens).0
        ≡ r
      → IsSafe (after_token api config cluster clock e r v)
  unfolding IsSafe
  after_token-IsSafe sa (no_token err) v h policy q = inl h
  after_token-IsSafe sa (has_token [] renew_at) v h policy q = inl h
  after_token-IsSafe sa (has_token (c ∷ token) renew_at) v h policy q = go (cluster.apply_plugin p)
    where
      p : WasmPlugin
      p =
          build_wasm_plugin cluster.policy_api config e (wasm_plugin_oci_url_source config e).0
            (c ∷ token)

      go : (o : Option GoError) → IsSafe (after_apply api config cluster clock e p renew_at o v)
      go (some err) = inl h
      go none = after_ready-IsSafe p renew_at _ _ λ status. record {
        sa = sa;
        token = c ∷ token;
        renew_at = renew_at;
        token_given = λ n. absurd (ground (arith, n));
        issued = q;
        is_plugin = refl;
        policy = policy;
      }

  after_account-IsSafe :
      (a : Creation) (v : EngineWorld)
      → v.plugin ≡ w.plugin
      → v.tokens ≡ w.tokens
      → Applied cluster.policy_api e.engine w.policies v.policies
      → IsSafe (after_account api config cluster clock e a v)
  unfolding IsSafe
  after_account-IsSafe (not_created err) v h t policy = inl h
  after_account-IsSafe (created_as sa) v h t policy = after_token-IsSafe sa _ _ h policy (
      ap
        (λ ts.
          (ensure_cache_token cluster.create_token (token_call api config cluster clock e sa) ts).0)
        (sym t))

  provision_wasm_driver-IsSafe :
      IsMap w.policies → IsSafe (provision_wasm_driver api config cluster clock e w)
  unfolding provision_wasm_driver IsSafe
  provision_wasm_driver-IsSafe m = go (target_label_selector cluster.policy_api e.engine)
    where
      policy :
          (o : Option GoError) (ps : Policies)
          → (o ≡ none → Applied cluster.policy_api e.engine w.policies ps)
          → IsSafe (after_policy api config cluster clock e o (record w { policies = ps }))
      policy (some err) ps h = inl refl
      policy none ps h =
          after_account-IsSafe (ensure_cache_client_service_account api config cluster clock e) _
            refl refl (h refl)

      go : (s : Option (Assoc Bytes)) → IsSafe (with_selector api config cluster clock e s w)
      go none = inl refl
      go (some labels) =
          policy _ _ (apply_network_policy-Applied cluster.policy_api e.engine w.policies m)

  -- A plugin is applied only in this order: the network policy that lets only the pods of the Engine's
  -- gateway reach the cache is in place, then a token that is not empty is held for the Engine and
  -- its rule set, then the plugin that carries this token is applied. Otherwise the plugin stays as it
  -- was.
  pub select_driver-IsSafe : IsMap w.policies → IsSafe (select_driver api config cluster clock e w)
  unfolding select_driver IsSafe
  select_driver-IsSafe m = go (bytes_eq e.driver_type [] || bytes_eq e.driver_type (bytes "wasm"))
    where
      refused :
          (err : GoError) (r : Option GoError × World)
          → IsSafe (invalid api config cluster clock err r w)
      refused err (some p, status) = inl refl
      refused err (none, status) = inl refl

      go :
          (b : Bool)
          → IsSafe (
              if b
              then provision_wasm_driver api config cluster clock e w
              else handle_invalid_driver_configuration api config cluster clock e w)
      go true = provision_wasm_driver-IsSafe m
      go false = refused _ _
