-- ===== src/Controller/Policies/Cleanup.antt =====
-- The removal of the policies of an Engine.
use coraza_kubernetes_operat.Prelude.{
  Bool, true, false, not, ◌||◌, ◌≡◌, refl, ap, ◌∙◌, Option, none, some, List, [], ◌∷◌, arith,
  if◌then◌else◌,
}
use coraza_kubernetes_operat.Prelude.Bytes.{Bytes, bytes_eq, bytes_eq_iff}
use coraza_kubernetes_operat.Prelude.Assoc.{IsMap, lookup, delete, lookup-delete}
use coraza_kubernetes_operat.Controller.Errors.{GoError}
use coraza_kubernetes_operat.Controller.Policies.{
  Engine, NetworkPolicy, FinalizerList, PolicyApi, Policies, Deletion, deleted, gone, not_deleted,
  is_of_engine, listed, delete_each, after_deletion, cleanup_listed, cleanup_network_policy,
  network_policy_finalizer, Finalized, after_cleanup, patched_finalizers,
  handle_network_policy_deletion,
}

abbrev has_key : Bytes → Policies → Bool
has_key k [] = false
has_key k ((j, _) ∷ ps) = bytes_eq j k || has_key k ps

-- What is left of a policy when those of the engine are taken away.
abbrev pub others : Bytes → Bytes → Option NetworkPolicy → Option NetworkPolicy
others namespace name none = none
others namespace name (some p) = if is_of_engine namespace name p then none else some p

abbrev is_owned : Bytes → Bytes → Option NetworkPolicy → Bool
is_owned namespace name none = false
is_owned namespace name (some p) = is_of_engine namespace name p

has_key-listed_absent :
    (namespace name k : Bytes) (ps : Policies)
    → lookup k ps ≡ none
    → has_key k (listed namespace name ps) ≡ false
has_key-listed_absent namespace name k [] h = refl
has_key-listed_absent namespace name k ((j, p) ∷ ps) h =
    ground (arith, h, has_key-listed_absent namespace name k ps)

has_key-listed :
    (namespace name k : Bytes) (ps : Policies)
    → IsMap ps
    → has_key k (listed namespace name ps) ≡ is_owned namespace name (lookup k ps)
has_key-listed namespace name k [] m = refl
has_key-listed namespace name k ((j, p) ∷ ps) m = ground (
  arith,
  bytes_eq_iff j k,
  m,
  has_key-listed namespace name k ps,
  has_key-listed_absent namespace name k ps,
)

module _ (api : PolicyApi) where
  lookup-delete_each :
      (items ps : Policies) (k : Bytes)
      → (delete_each api items ps).0 ≡ none
      → lookup k (delete_each api items ps).1 ≡ (if has_key k items then none else lookup k ps)
  lookup-delete_each [] ps k h = refl
  lookup-delete_each ((name, p) ∷ items) ps k h =
      go (api.delete_policy name)
        (λ h'.
          lookup-delete_each items (delete name ps) k h' ∙ ground (arith, lookup-delete name k ps))
        h
    where
      go :
          (d : Deletion)
          → ((delete_each api items (delete name ps)).0 ≡ none
              → lookup k (delete_each api items (delete name ps)).1
                ≡ (if bytes_eq name k || has_key k items then none else lookup k ps))
          → (after_deletion api d name (delete_each api items) ps).0 ≡ none
          → lookup k (after_deletion api d name (delete_each api items) ps).1
            ≡ (if bytes_eq name k || has_key k items then none else lookup k ps)
      go deleted rest h' = rest h'
      go gone rest h' = rest h'
      go (not_deleted e) rest h' = absurd (ground (arith, h'))

  -- Where the cleanup reports no error, it has removed exactly the policies of the Engine.
  pub cleanup_network_policy_exact :
      (namespace name : Bytes) (ps : Policies) (k : Bytes)
      → IsMap ps
      → (cleanup_network_policy api namespace name ps).0 ≡ none
      → lookup k (cleanup_network_policy api namespace name ps).1
        ≡ others namespace name (lookup k ps)
  unfolding cleanup_network_policy
  cleanup_network_policy_exact namespace name ps k m = go api.list_error
    where
      left :
          (o : Option NetworkPolicy)
          → (if is_owned namespace name o then none else o) ≡ others namespace name o
      left none = refl
      left (some p) = refl

      go :
          (o : Option GoError)
          → (cleanup_listed api namespace name o ps).0 ≡ none
          → lookup k (cleanup_listed api namespace name o ps).1
            ≡ others namespace name (lookup k ps)
      go (some e) h = absurd (ground (arith, h))
      go none h =
          lookup-delete_each (listed namespace name ps) ps k h
          ∙ (ap (λ b. if b then none else lookup k ps) (has_key-listed namespace name k ps m)
              ∙ left (lookup k ps))

module _ (fin : FinalizerList) (api : PolicyApi) where
  -- An Engine that has the finalizer loses it only when its policies are gone, and those of all other
  -- Engines are as they were.
  pub handle_network_policy_deletion_guards :
      (e : Engine) (ps : Policies) (k : Bytes)
      → IsMap ps
      → fin.contains_finalizer e.finalizers network_policy_finalizer ≡ true
      → fin.contains_finalizer
          (handle_network_policy_deletion fin api e ps).finalizers
          network_policy_finalizer
        ≡ false
      → lookup k (handle_network_policy_deletion fin api e ps).policies
        ≡ others e.namespace e.name (lookup k ps)
  unfolding handle_network_policy_deletion
  handle_network_policy_deletion_guards e ps k m has =
      go e.deleting (fin.contains_finalizer e.finalizers network_policy_finalizer)
    where
      Guards : Finalized → Type 0
      Guards f =
          fin.contains_finalizer f.finalizers network_policy_finalizer ≡ false
          → lookup k f.policies ≡ others e.namespace e.name (lookup k ps)

      kept :
          (b : Bool) (err : Option GoError) (ps' : Policies)
          → Guards (record { answer = b; error = err; finalizers = e.finalizers; policies = ps' })
      kept b err ps' h = absurd (ground (arith, has, h))

      patched :
          (ps' : Policies) (o : Option GoError) (after : List Bytes)
          → lookup k ps' ≡ others e.namespace e.name (lookup k ps)
          → Guards (patched_finalizers fin api true e.finalizers o after ps')
      patched ps' (some err) after gone' h = gone'
      patched ps' none after gone' h = gone'

      cleaned :
          (r : Option GoError × Policies)
          → (r.0 ≡ none → lookup k r.1 ≡ others e.namespace e.name (lookup k ps))
          → Guards (after_cleanup fin api e r)
      cleaned (some err, ps') exact = kept true (some err) ps'
      cleaned (none, ps') exact = patched ps' (api.patch_engine _) _ (exact refl)

      go :
          (d b : Bool)
          → Guards (
              if not d
              then record { answer = false; error = none; finalizers = e.finalizers; policies = ps }
              else if not b
              then record { answer = true; error = none; finalizers = e.finalizers; policies = ps }
              else after_cleanup fin api e (cleanup_network_policy api e.namespace e.name ps))
      go false b = kept false none ps
      go true false = kept true none ps
      go true true = cleaned _ (cleanup_network_policy_exact api e.namespace e.name ps k m)
