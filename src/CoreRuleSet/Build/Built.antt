-- ===== src/CoreRuleSet/Build/Built.antt =====
-- What Build promises of a bundle.
use mathlib.Core.List.{append_assoc, append-nil}
use coraza_kubernetes_operat.Prelude.{
  false, All-append, length-append, arith, not, arith, not, sym, sym, All, ap, ap, ◌+◌, ◌∙◌, length,
  Bool, true, List, [], ◌∷◌, ◌++◌, ◌≡◌, refl, subst, map, Bool-cases, inl, inr, ◌⊎◌,
}
use coraza_kubernetes_operat.Prelude.Bytes.{Bytes, bytes}
use coraza_kubernetes_operat.Controller.Errors.{base}
use coraza_kubernetes_operat.CoreRuleSet.Strings.{is_empty, trim_space}
use coraza_kubernetes_operat.CoreRuleSet.Options.{ok, ◌>>=◌, >>=-eq-ok, Options, Host}
use coraza_kubernetes_operat.CoreRuleSet.Process.{process_file_content}
use coraza_kubernetes_operat.CoreRuleSet.Validate.{
  refuse, validate_rule_source_object_name, check_payload_size, generate_rule_source_name,
}
use coraza_kubernetes_operat.CoreRuleSet.Render.{indent_multiline}
use coraza_kubernetes_operat.CoreRuleSet.Build.{
  rule_set_yaml, data_doc, no_progress, merge_unsupported_ids, CrsVersion, ManifestBundle,
  NamedYaml, Progress, ScanResult, add_result, build, build_conf_files, ConfFileResult,
  rule_source_of, build_rule_source_yaml, non_empty_name, rule_source_result,
}

refuse-ok : (l what : List Bytes) → refuse l what ≡ ok tt → l ≡ []
refuse-ok [] what h = refl
refuse-ok (e ∷ l) what h = absurd (cc h)

map-append : {A B : Type 0} (f : A → B) (xs ys : List A) → map f (xs ++ ys) ≡ map f xs ++ map f ys
map-append f [] ys = refl
map-append f (x ∷ xs) ys = rw (map-append f xs ys)

ok_inj : {A : Type 0} {a b : A} → ok a ≡ ok b → a ≡ b
ok_inj h = cc h

module _ (host : Host) (opts : Options) where
  name_valid :
      (name : Bytes)
      → validate_rule_source_object_name host name ≡ ok tt
      → host.is_dns1123_subdomain name ≡ []
  unfolding validate_rule_source_object_name
  name_valid name = refuse-ok (host.is_dns1123_subdomain name) _

  -- A file whose result has YAML has a name that Kubernetes accepts.
  abbrev HasName : ConfFileResult → Type 0
  HasName r = (is_empty r.yaml ≡ true) ⊎ (host.is_dns1123_subdomain r.source_name ≡ [])

  rule_source_of-HasName :
      (name processed : Bytes) (warns : List Bytes) {r : ConfFileResult}
      → host.is_dns1123_subdomain name ≡ []
      → rule_source_of host opts name (processed, warns) ≡ ok r
      → HasName r
  rule_source_of-HasName name processed warns v h =
      elim (Bool-cases (is_empty (trim_space processed))) [
        | inl e ↦ subst HasName (ok_inj (rw e at h)) (inl refl)
        | inr e ↦ checked (rw e at h)
      ]
    where
      checked :
          {r : ConfFileResult}
          → (check_payload_size host (indent_multiline processed 4 ++ bytes "\n") name opts >>= λ _.
              ok (rule_source_result opts name (indent_multiline processed 4) warns))
            ≡ ok r
          → HasName r
      checked h' =
          let (u, _, k) =
            >>=-eq-ok
              (check_payload_size host (indent_multiline processed 4 ++ bytes "\n") name opts)
              (λ _. ok (rule_source_result opts name (indent_multiline processed 4) warns)) h' in
          subst HasName (ok_inj k) (inr v)

  build_rule_source_yaml-HasName :
      (path : Bytes) {r : ConfFileResult} → build_rule_source_yaml host path opts ≡ ok r → HasName r
  unfolding build_rule_source_yaml
  build_rule_source_yaml-HasName path h =
      let (raw_name, _, named) = >>=-eq-ok (generate_rule_source_name (base path)) _ h in
      let name = opts.name_prefix ++ (raw_name ++ opts.name_suffix) in
      let (_, _, valid) = >>=-eq-ok (non_empty_name name) _ named in
      let (_, v, processed) = >>=-eq-ok (validate_rule_source_object_name host name) _ valid in
      let ((text, warns), _, last) =
        >>=-eq-ok
          (process_file_content host path opts.ignore_rule_ids opts.auto_ignored_ids
            opts.ignore_pm_from_file)
          _ processed in
      rule_source_of-HasName name text warns (name_valid name v) last

  -- The variables of the loop, after the files `seen`.
  record Tracks (seen : List Bytes) (p : Progress) : Type 0 where
    listed : map (λ (r : ConfFileResult). r.base_name) p.conf_results ≡ map base seen
    named : p.names ≡ map (λ (s : NamedYaml). s.name) p.extra
    counted : p.done ≡ length p.extra
    all_counted : p.done + p.left_out ≡ length seen
    accepted : All (λ (s : NamedYaml). host.is_dns1123_subdomain s.name ≡ []) p.extra

  add_result-Tracks :
      (seen : List Bytes) (path : Bytes) (p : Progress) (r : ConfFileResult) (b : Bool)
      → is_empty r.yaml ≡ b
      → HasName r
      → Tracks seen p
      → Tracks (seen ++ path ∷ []) (add_result p path r)
  unfolding add_result
  add_result-Tracks seen path p r true e v t = rw e (record {
    listed =
        map-append (λ (r : ConfFileResult). r.base_name) p.conf_results _
        ∙ ap (λ l. l ++ base path ∷ []) t.listed
        ∙ sym (map-append base seen (path ∷ []));
    named = t.named;
    counted = t.counted;
    all_counted = omega (arith, t.all_counted, length-append seen (path ∷ []));
    accepted = t.accepted;
  })
  add_result-Tracks seen path p r false e v t = rw e (record {
    listed =
        map-append (λ (r : ConfFileResult). r.base_name) p.conf_results _
        ∙ ap (λ l. l ++ base path ∷ []) t.listed
        ∙ sym (map-append base seen (path ∷ []));
    named =
        ap (λ l. l ++ r.source_name ∷ []) t.named
        ∙ sym (map-append (λ (s : NamedYaml). s.name) p.extra _);
    counted = omega (
      arith,
      t.counted,
      length-append p.extra (record { name = r.source_name; doc = r.yaml } ∷ []),
    );
    all_counted = omega (arith, t.all_counted, length-append seen (path ∷ []));
    accepted = All-append _ p.extra _ t.accepted (name_of v, tt);
  })
    where
      name_of : HasName r → host.is_dns1123_subdomain r.source_name ≡ []
      name_of (inl f) = absurd (cc (sym f ∙ e))
      name_of (inr n) = n

  build_conf_files-Tracks :
      (paths seen : List Bytes) (p : Progress) {q : Progress}
      → Tracks seen p
      → build_conf_files host opts paths p ≡ ok q
      → Tracks (seen ++ paths) q
  unfolding build_conf_files
  build_conf_files-Tracks [] seen p t h =
      subst (Tracks (seen ++ [])) (ok_inj h) (subst (λ l. Tracks l p) (sym (append-nil seen)) t)
  build_conf_files-Tracks (path ∷ paths) seen p {q} t h =
      let (r, built, rest) = >>=-eq-ok (build_rule_source_yaml host path opts) _ h in
      let t' =
        add_result-Tracks seen path p r (is_empty r.yaml) refl
          (build_rule_source_yaml-HasName path built) t in
      subst (λ l. Tracks l q) (append_assoc seen (path ∷ []) paths)
        (build_conf_files-Tracks paths (seen ++ path ∷ []) (add_result p path r) t' rest)

-- A bundle holds one RuleSource for each file with rules, in the order of the files, and its RuleSet
-- names exactly these.
pub record IsBuilt (host : Host) (opts : Options) (scan : ScanResult) (b : ManifestBundle)
    : Type 0 where
  pub reported :
      map (λ (r : ConfFileResult). r.base_name) b.conf_file_results ≡ map base scan.conf_paths
  pub processed_are_emitted : b.stats.processed ≡ length b.extra_rule_sources
  pub all_counted : b.stats.processed + b.stats.skipped ≡ length scan.conf_paths
  pub names_accepted :
      All (λ (s : NamedYaml). host.is_dns1123_subdomain s.name ≡ []) b.extra_rule_sources
  pub rule_set_lists :
      b.rule_set_doc
      ≡ rule_set_yaml
          (map (λ (s : NamedYaml). s.name) b.extra_rule_sources)
          (merge_unsupported_ids opts)
          (not (is_empty scan.data_paths))

-- A bundle that Build returns reports every .conf file in order and counts it once, has as many RuleSources
-- as it counts processed files, all under names that Kubernetes accepts, and its RuleSet lists
-- base-rules and then exactly the names of these RuleSources in their order.
pub build-IsBuilt :
    (host : Host) (opts : Options) (scan : ScanResult) (ver : CrsVersion) {b : ManifestBundle}
    → build host opts scan ver ≡ ok b
    → IsBuilt host opts scan b
unfolding build
build-IsBuilt host opts scan ver h =
    let (_, _, sized) =
      >>=-eq-ok (check_payload_size host _ (bytes "base-rules") (merge_unsupported_ids opts)) _ h in
    let (p, files, read) =
      >>=-eq-ok (build_conf_files host (merge_unsupported_ids opts) scan.conf_paths no_progress) _
        sized in
    let (doc, _, last) =
      >>=-eq-ok (data_doc host scan.data_paths (merge_unsupported_ids opts)) _ read in
    let t =
      build_conf_files-Tracks host (merge_unsupported_ids opts) scan.conf_paths [] no_progress start
        files in
    subst (IsBuilt host opts scan) (ok_inj last) (record {
      reported = t.listed;
      processed_are_emitted = t.counted;
      all_counted = t.all_counted;
      names_accepted = t.accepted;
      rule_set_lists =
          ap (λ l. rule_set_yaml l (merge_unsupported_ids opts) (not (is_empty scan.data_paths)))
            t.named;
    })
  where
    start : Tracks host (merge_unsupported_ids opts) [] no_progress
    start = record {
      listed = refl;
      named = refl;
      counted = refl;
      all_counted = refl;
      accepted = tt;
    }
