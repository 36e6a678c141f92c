-- ===== src/Cache/Server/Routing.antt =====
-- Which rule set a path names, and which handler.
use coraza_kubernetes_operat.Prelude.{
  ◌≡◌, true, false, ◌↔◌, ◌++◌, inl, inr, arith, Option-cases, if◌then◌else◌,
}
use coraza_kubernetes_operat.Prelude.Bytes.{
  Bytes, bytes, cut_suffix, cut_suffix-some, cut_suffix-append,
}
use coraza_kubernetes_operat.Cache.Server.{route, handler_label, rules_path}

abbrev latest_suffix : Bytes
latest_suffix = bytes "/latest"

latest_only : (path key : Bytes) → route path ≡ (key, true) → path ≡ key ++ latest_suffix
unfolding route
latest_only path key h = elim (Option-cases (cut_suffix path latest_suffix)) [
  | inl e ↦ absurd (ground arith)
  | inr (k, e) ↦ cut_suffix-some path latest_suffix key (ground arith)
]

-- The part of the path behind /rules/ asks for the latest version of a key exactly when it is the
-- key followed by /latest; any other path is itself the key and asks for the rules.
pub route_iff :
    (path : Bytes)
    → ((key : Bytes) → (route path ≡ (key, true)) ↔ (path ≡ key ++ bytes "/latest"))
      × ((route path).1 ≡ false → (route path).0 ≡ path)
unfolding route
route_iff path = (
  λ key. (latest_only path key, λ e. rw (e, cut_suffix-append key latest_suffix)),
  λ h. ground arith,
)

-- For every path below /rules/ the label of the metrics names the handler that runs.
pub handler_label-route :
    (path : Bytes)
    → handler_label (rules_path ++ path)
      ≡ (if (route path).1 then bytes "latest" else bytes "rules")
unfolding handler_label route
handler_label-route path = elim (Option-cases (cut_suffix path latest_suffix)) [
  | inl e ↦ rw e
  | inr (k, e) ↦ rw e
]
