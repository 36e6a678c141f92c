-- ===== src/Cache/Metrics/Examples.antt =====
-- Tests of the metrics of requests, and their theorem at a concrete input.
use coraza_kubernetes_operat.Prelude.{some, true, false, ◌≡◌, refl, [], ◌∷◌, ◌++◌}
use coraza_kubernetes_operat.Prelude.Bytes.{Bytes, bytes}
use coraza_kubernetes_operat.RuleSets.Unsupported.Decimal.{decimal}
use coraza_kubernetes_operat.Cache.Server.{handler_label}
use coraza_kubernetes_operat.Cache.Metrics.{
  write_header, write, Metrics, RequestLabels, gauge, serve, capture, captured_status,
  instrument_handler,
}
use coraza_kubernetes_operat.Cache.Metrics.Recorded.{
  final_status, recorded_code, instrument_handler_exact,
}

abbrev no_requests : Metrics
no_requests = record { requests_total = []; request_duration = []; in_flight_requests = [] }

abbrev latest_path : Bytes
latest_path = bytes "/rules/ns/crs/latest"

-- The second header does not change the status.
first_status_counts :
    (instrument_handler latest_path
      (bytes "GET")
      (write_header 404 ∷ write_header 200 ∷ [])
      false
      7
      no_requests).0.requests_total
    ≡ record { handler = bytes "latest"; method = bytes "GET"; code_label = bytes "404" } ∷ []
unfolding instrument_handler handler_label serve capture captured_status decimal
first_status_counts = refl

panic_counts_as_500 :
    (instrument_handler (bytes "/other") (bytes "GET") [] true 7 no_requests).0.requests_total
    ≡ record { handler = bytes "rules"; method = bytes "GET"; code_label = bytes "500" } ∷ []
unfolding instrument_handler handler_label serve capture captured_status
panic_counts_as_500 = refl

instrument_handler_exact_example :
    let r =
      instrument_handler latest_path (bytes "GET") (write (bytes "{}") ∷ []) true 7 no_requests in
    let labels : RequestLabels = record {
      handler = handler_label latest_path;
      method = bytes "GET";
      code_label = recorded_code (final_status true (write (bytes "{}") ∷ []));
    } in
    (r.0.requests_total ≡ [] ++ labels ∷ [])
    × (r.0.request_duration ≡ [] ++ (labels, 7) ∷ [])
    × (r.1 ≡ (write (bytes "{}") ∷ [], true))
    × (gauge (bytes "latest") r.0.in_flight_requests ≡ gauge (bytes "latest") [])
instrument_handler_exact_example =
    instrument_handler_exact latest_path (bytes "GET") (write (bytes "{}") ∷ []) true 7 no_requests
      (bytes "latest") refl

-- 103 is sent ahead, and 200 is the status of the response, but the code takes the first header.
informational_is_recorded :
    ((instrument_handler latest_path
        (bytes "GET")
        (write_header 103 ∷ write_header 200 ∷ [])
        false
        7
        no_requests).0.requests_total
      ≡ record { handler = bytes "latest"; method = bytes "GET"; code_label = bytes "103" } ∷ [])
    × (final_status false (write_header 103 ∷ write_header 200 ∷ []) ≡ some 200)
unfolding instrument_handler handler_label serve capture captured_status decimal
informational_is_recorded = (refl, refl)
