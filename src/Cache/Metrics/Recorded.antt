-- ===== src/Cache/Metrics/Recorded.antt =====
-- instrumentHandler of internal/rulesets/cache/metrics.go: what is recorded of a request.
use mathlib.Core.List.{append_assoc, append-nil}
use coraza_kubernetes_operat.Prelude.{
  any, leb, not, ◌&&◌, ◌==◌, ℕ, ◌+◌, ◌-◌, Bool, true, false, ◌≡◌, ◌∙◌, refl, sym, ap, List, [], ◌∷◌,
  ◌++◌, Option, none, some, arith, if◌then◌else◌,
}
use coraza_kubernetes_operat.Prelude.Bytes.{Bytes, bytes, bytes_eq, bytes_eq_iff}
use coraza_kubernetes_operat.Prelude.Assoc.{Assoc, lookup, insert, lookup-insert}
use coraza_kubernetes_operat.RuleSets.Unsupported.Decimal.{decimal}
use coraza_kubernetes_operat.Cache.Server.{handler_label}
use coraza_kubernetes_operat.Cache.Metrics.{
  WriterCall, write_header, write, StatusCapture, capture, captured_status, new_status_capture,
  serve, RequestLabels, Metrics, gauge, or_zero, inc, dec, code_of, instrument_handler,
}

-- A header that the package http sends at once and does not take for the response.
abbrev pub is_informational : WriterCall → Bool
is_informational (write_header code) = leb 100 code && (leb code 199 && not (code == 101))
is_informational (write b) = false

-- The status of the response that the package http holds for final: that of the first header that is
-- not informational, 200 for a Write before it, and 200 where the handler returns without either. A
-- handler that panics before has no response.
abbrev pub final_status : Bool → List WriterCall → Option ℕ
final_status true [] = none
final_status false [] = some 200
final_status panics (write_header code ∷ calls) =
    let later = final_status panics calls in
    if is_informational (write_header code) then later else some code
final_status panics (write b ∷ calls) = some 200

-- A request without a response counts as 500.
abbrev pub recorded_code : Option ℕ → Bytes
recorded_code (some code) = decimal code
recorded_code none = bytes "500"

-- Once written, the code stays.
serve_written :
    (calls : List WriterCall) (sc : StatusCapture)
    → sc.written ≡ true
    → ((serve calls sc).written ≡ true) × ((serve calls sc).code ≡ sc.code)
unfolding serve capture
serve_written [] sc h = (h, refl)
serve_written (write_header code ∷ calls) sc h =
    let (w, c) = serve_written calls (capture (write_header code) sc) (rw h refl) in
    (w, c ∙ rw h refl)
serve_written (write b ∷ calls) sc h =
    let (w, c) = serve_written calls (capture (write b) sc) (rw h refl) in (w, c ∙ rw h refl)

capture-forwarded :
    (c : WriterCall) (sc : StatusCapture) → (capture c sc).forwarded ≡ sc.forwarded ++ c ∷ []
unfolding capture
capture-forwarded (write_header code) sc = ground arith
capture-forwarded (write b) sc = ground arith

serve-forwarded :
    (calls : List WriterCall) (sc : StatusCapture)
    → (serve calls sc).forwarded ≡ sc.forwarded ++ calls
unfolding serve
serve-forwarded [] sc = sym (append-nil sc.forwarded)
serve-forwarded (c ∷ calls) sc =
    serve-forwarded calls (capture c sc)
    ∙ ap (λ l. l ++ calls) (capture-forwarded c sc)
    ∙ append_assoc sc.forwarded (c ∷ []) calls

code_of_written :
    (sc : StatusCapture) (panics : Bool) → sc.written ≡ true → code_of panics sc ≡ decimal sc.code
unfolding captured_status
code_of_written sc true h = rw h refl
code_of_written sc false h = rw h refl

code_of-serve :
    (calls : List WriterCall) (panics : Bool)
    → any is_informational calls ≡ false
    → code_of panics (serve calls new_status_capture) ≡ recorded_code (final_status panics calls)
unfolding serve capture captured_status
code_of-serve [] true h = refl
code_of-serve [] false h = refl
code_of-serve (write_header code ∷ calls) panics h =
    let (w, e) = serve_written calls (capture (write_header code) new_status_capture) refl in
    let final : is_informational (write_header code) ≡ false = ground (arith, h) in
    code_of_written _ panics w
    ∙ ap decimal e
    ∙ ap (λ b. recorded_code (if b then final_status panics calls else some code)) (sym final)
code_of-serve (write b ∷ calls) panics h =
    let (w, e) = serve_written calls (capture (write b) new_status_capture) refl in
    code_of_written _ panics w ∙ ap decimal e

gauge-insert :
    (k j : Bytes) (v : ℕ) (g : Assoc ℕ)
    → gauge j (insert k v g) ≡ (if bytes_eq k j then v else gauge j g)
gauge-insert k j v g = ap or_zero (lookup-insert k j v g) ∙ if_or_zero (bytes_eq k j)
  where
    if_or_zero :
        (b : Bool) → or_zero (if b then some v else lookup j g) ≡ (if b then v else gauge j g)
    if_or_zero true = refl
    if_or_zero false = refl

gauge_kept :
    (handler h : Bytes) (m : Metrics)
    → gauge h (dec handler (inc handler m)).in_flight_requests ≡ gauge h m.in_flight_requests
gauge_kept handler h m = ground (
  arith,
  bytes_eq_iff handler h,
  bytes_eq_iff handler handler,
  gauge-insert handler handler (gauge handler m.in_flight_requests + 1) m.in_flight_requests,
  gauge-insert handler h (gauge handler m.in_flight_requests + 1) m.in_flight_requests,
  gauge-insert handler h (gauge handler (inc handler m).in_flight_requests - 1)
      (inc handler m).in_flight_requests,
)

-- Where the handler sends no informational header, a request counts once, with the label of its path,
-- its method and the status of its response, or 500 where the handler panics before it has one. Its
-- duration has the same labels, the calls reach the wrapped writer as they are, the panic goes on, and
-- no gauge keeps a trace of the request.
pub instrument_handler_exact :
    (url_path method : Bytes) (calls : List WriterCall) (panics : Bool) (elapsed : ℕ) (m : Metrics)
    (handler : Bytes)
    → any is_informational calls ≡ false
    → let r = instrument_handler url_path method calls panics elapsed m in
      let labels : RequestLabels = record {
        handler = handler_label url_path;
        method = method;
        code_label = recorded_code (final_status panics calls);
      } in
      (r.0.requests_total ≡ m.requests_total ++ labels ∷ [])
      × (r.0.request_duration ≡ m.request_duration ++ (labels, elapsed) ∷ [])
      × (r.1 ≡ (calls, panics))
      × (gauge handler r.0.in_flight_requests ≡ gauge handler m.in_flight_requests)
unfolding instrument_handler
instrument_handler_exact url_path method calls panics elapsed m handler h = (
  rw (code_of-serve calls panics h) refl,
  rw (code_of-serve calls panics h) refl,
  rw (serve-forwarded calls new_status_capture) refl,
  gauge_kept (handler_label url_path) handler m,
)
