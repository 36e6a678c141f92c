-- ===== src/CoreRuleSet/BaseRules.antt =====
-- tools/corerulesetgen/render.go: the bundled base rules.
use coraza_kubernetes_operat.Prelude.{Bool, [], ◌∷◌, ◌++◌, ◌==◌, if◌then◌else◌}
use coraza_kubernetes_operat.Prelude.Bytes.{Bytes, bytes}
use coraza_kubernetes_operat.CoreRuleSet.Strings.{trim_right}
use coraza_kubernetes_operat.CoreRuleSet.Options.{concat}

-- The literal, with its %s filled in.
unfoldable pub base_rules_text : Bytes → Bytes → Bytes
base_rules_text normalized_version crs_setup_version = concat (
    bytes "    SecRuleEngine On\n    SecRequestBodyAccess On\n"
    ∷ bytes "    SecRequestBodyLimit 13107200\n    SecRequestBodyInMemoryLimit 131072\n"
    ∷ bytes "    SecRequestBodyLimitAction Reject\n    SecResponseBodyAccess On\n"
    ∷ bytes "    SecResponseBodyMimeType text/plain text/html text/xml application/json\n"
    ∷ bytes
        "    # SecRequestBodyJsonDepthLimit directive requires Coraza 3.4.0 on WASM Plugin and it is not supported yet\n"
    ∷ bytes "    # SecRequestBodyJsonDepthLimit 1024\n    SecResponseBodyLimit 524288\n"
    ∷ bytes "    SecResponseBodyLimitAction ProcessPartial\n    SecAuditEngine RelevantOnly\n"
    ∷ bytes "    SecAuditLogType Serial\n    SecAuditLog /dev/stdout\n"
    ∷ bytes "    SecAuditLogFormat JSON\n    SecAuditLogParts ABIJDEFHZ\n"
    ∷ bytes "    SecAuditLogRelevantStatus \"^(40[0-3]|40[5-9]|4[1-9][0-9]|5[0-9][0-9])$\"\n"
    ∷ bytes "    SecDefaultAction \"phase:1,log,auditlog,pass\"\n"
    ∷ bytes "    SecDefaultAction \"phase:2,log,auditlog,pass\"\n"
    ∷ bytes
        "    SecRule REQUEST_HEADERS:Content-Type \"^(?:application(?:/soap\\+|/)|text/)xml\" \\\n"
    ∷ bytes "     \"id:200000,\\\n     phase:1,\\\n     t:none,t:lowercase,\\\n     pass,\\\n"
    ∷ bytes "     nolog,\\\n     ctl:requestBodyProcessor=XML\"\n"
    ∷ bytes "    SecRule REQUEST_HEADERS:Content-Type \"^application/json\" \\\n"
    ∷ bytes "     \"id:200001,\\\n     phase:1,\\\n     t:none,t:lowercase,\\\n     pass,\\\n"
    ∷ bytes "     nolog,\\\n     ctl:requestBodyProcessor=JSON\"\n"
    ∷ bytes "    SecRule REQUEST_HEADERS:Content-Type \"^application/[a-z0-9.-]+\\+json\" \\\n"
    ∷ bytes "     \"id:200006,\\\n     phase:1,\\\n     t:none,t:lowercase,\\\n     pass,\\\n"
    ∷ bytes "     nolog,\\\n     ctl:requestBodyProcessor=JSON\"\n"
    ∷ bytes "    SecRule REQBODY_ERROR \"!@eq 0\" \\\n     \"id:200002,\\\n     phase:2,\\\n"
    ∷ bytes "     t:none,\\\n     log,\\\n     deny,\\\n     status:400,\\\n"
    ∷ bytes "     msg:'Failed to parse request body.',\\\n"
    ∷ bytes "     logdata:'%{reqbody_error_msg}',\\\n     severity:2\"\n"
    ∷ bytes "    SecRule MULTIPART_STRICT_ERROR \"!@eq 0\" \\\n     \"id:200003,\\\n"
    ∷ bytes "     phase:2,\\\n     t:none,\\\n     log,\\\n     deny,\\\n     status:400,\\\n"
    ∷ bytes "     msg:'Multipart request body failed strict validation.'\"\n    SecAction \\\n"
    ∷ bytes "     \"id:900120,\\\n     phase:1,\\\n     pass,\\\n     t:none,\\\n     nolog,\\\n"
    ∷ bytes "     tag:'OWASP_CRS',\\\n     ver:'OWASP_CRS/"
    ∷ normalized_version
    ∷ bytes "',\\\n     setvar:tx.early_blocking=1\"\n    SecAction \\\n     \"id:900990,\\\n"
    ∷ bytes "     phase:1,\\\n     pass,\\\n     t:none,\\\n     nolog,\\\n"
    ∷ bytes "     tag:'OWASP_CRS',\\\n     ver:'OWASP_CRS/"
    ∷ normalized_version
    ∷ bytes "',\\\n     setvar:tx.crs_setup_version="
    ∷ crs_setup_version
    ∷ bytes "\"\n"
    ∷ [])

unfoldable pub x_crs_test_block : Bytes
x_crs_test_block = concat (
    bytes "    SecResponseBodyMimeType text/plain text/html text/xml application/json\n"
    ∷ bytes "    SecDefaultAction \"phase:3,log,auditlog,pass\"\n"
    ∷ bytes "    SecDefaultAction \"phase:4,log,auditlog,pass\"\n"
    ∷ bytes "    SecDefaultAction \"phase:5,log,auditlog,pass\"\n    SecDebugLogLevel 3\n"
    ∷ bytes "    SecAction \\\n     \"id:900005,\\\n     phase:1,\\\n     nolog,\\\n"
    ∷ bytes "     pass,\\\n     t:none,\\\n     setvar:tx.blocking_paranoia_level=4,\\\n"
    ∷ bytes "     setvar:tx.crs_validate_utf8_encoding=1,\\\n"
    ∷ bytes "     setvar:tx.arg_name_length=100,\\\n     setvar:tx.arg_length=400,\\\n"
    ∷ bytes "     setvar:tx.total_arg_length=64000,\\\n     setvar:tx.max_num_args=255,\\\n"
    ∷ bytes "     setvar:tx.max_file_size=64100,\\\n     setvar:tx.combined_file_sizes=65535,\\\n"
    ∷ bytes "     ctl:ruleEngine=DetectionOnly,\\\n     ctl:ruleRemoveById=910000\"\n"
    ∷ bytes "    SecRule REQUEST_HEADERS:X-CRS-Test \"@rx ^.*$\" \\\n     \"id:999999,\\\n"
    ∷ bytes "     pass,\\\n     phase:1,\\\n     log,\\\n"
    ∷ bytes "     msg:'X-CRS-Test %{MATCHED_VAR}',\\\n     ctl:ruleRemoveById=1-999999\""
    ∷ [])

-- strings.TrimRight(s, "\n")
abbrev trim_newlines : Bytes → Bytes
trim_newlines = trim_right (λ c. c == b'\n')

-- The base-rules RuleSource, and its rules for the size check.
unfoldable pub base_rules_yaml : Bytes → Bytes → Bool → Bytes × Bytes
unfolding base_rules_text x_crs_test_block
base_rules_yaml normalized_version crs_setup_version include_test =
    let inner = trim_newlines (base_rules_text normalized_version crs_setup_version) in
    let body = concat (
      bytes "apiVersion: waf.k8s.coraza.io/v1alpha1\nkind: RuleSource\nmetadata:\n"
      ∷ bytes "  name: base-rules\nspec:\n  rules: |\n"
      ∷ inner
      ∷ []) in
    let s = trim_newlines body in
    if include_test
    then (
      concat (s ∷ bytes "\n" ∷ x_crs_test_block ∷ []),
      concat (inner ∷ bytes "\n" ∷ x_crs_test_block ∷ bytes "\n" ∷ []),
    )
    else (s, inner ++ bytes "\n")
