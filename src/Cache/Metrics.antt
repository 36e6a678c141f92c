-- ===== src/Cache/Metrics.antt =====
-- internal/rulesets/cache/metrics.go: the metrics of the requests, and the writer that remembers the
-- status of a response.
-- A handler is the calls of its response writer and whether it panics after them. The metrics are
-- those of one request at a time: the requests, their durations, and the gauge by handler.
pub mod Recorded
mod Examples
use coraza_kubernetes_operat.Prelude.{
  ℕ, ◌+◌, ◌-◌, Bool, true, false, List, [], ◌∷◌, ◌++◌, Option, none, some, if◌then◌else◌,
}
use coraza_kubernetes_operat.Prelude.Bytes.{Bytes, bytes}
use coraza_kubernetes_operat.Prelude.Assoc.{Assoc, lookup, insert}
use coraza_kubernetes_operat.RuleSets.Unsupported.Decimal.{decimal}
use coraza_kubernetes_operat.Cache.Server.{handler_label}

pub data WriterCall : Type 0 where
  write_header : ℕ → WriterCall
  write : Bytes → WriterCall

-- `forwarded` is what the wrapped ResponseWriter is called with, in order.
pub record StatusCapture : Type 0 where
  pub code : ℕ
  pub written : Bool
  pub forwarded : List WriterCall

abbrev pub remember : ℕ → StatusCapture → StatusCapture
remember code sc = if sc.written then sc else record sc { code = code; written = true }

abbrev pub forward : WriterCall → StatusCapture → StatusCapture
forward c sc = record sc { forwarded = sc.forwarded ++ c ∷ [] }

-- The methods WriteHeader and Write.
unfoldable pub capture : WriterCall → StatusCapture → StatusCapture
capture (write_header code) sc = forward (write_header code) (remember code sc)
capture (write b) sc = forward (write b) (remember 200 sc)

unfoldable pub captured_status : StatusCapture → ℕ
captured_status sc = if sc.written then sc.code else 200

abbrev pub new_status_capture : StatusCapture
new_status_capture = record { code = 0; written = false; forwarded = [] }

unfoldable pub serve : List WriterCall → StatusCapture → StatusCapture
serve [] sc = sc
serve (c ∷ calls) sc = serve calls (capture c sc)

pub record RequestLabels : Type 0 where
  pub handler : Bytes
  pub method : Bytes
  pub code_label : Bytes

pub record Metrics : Type 0 where
  pub requests_total : List RequestLabels
  pub request_duration : List (RequestLabels × ℕ)
  pub in_flight_requests : Assoc ℕ

-- A gauge that was never touched is at 0.
abbrev pub or_zero : Option ℕ → ℕ
or_zero none = 0
or_zero (some n) = n

abbrev pub gauge : Bytes → Assoc ℕ → ℕ
gauge handler gauges = or_zero (lookup handler gauges)

abbrev pub inc : Bytes → Metrics → Metrics
inc handler m = record m {
  in_flight_requests = insert handler (gauge handler m.in_flight_requests + 1) m.in_flight_requests;
}

abbrev pub dec : Bytes → Metrics → Metrics
dec handler m = record m {
  in_flight_requests = insert handler (gauge handler m.in_flight_requests - 1) m.in_flight_requests;
}

abbrev pub observe : RequestLabels → ℕ → Metrics → Metrics
observe labels elapsed m = record m {
  requests_total = m.requests_total ++ labels ∷ [];
  request_duration = m.request_duration ++ (labels, elapsed) ∷ [];
}

-- The code of a request whose handler has panicked, or has returned.
abbrev pub code_of : Bool → StatusCapture → Bytes
code_of true sc = if sc.written then decimal (captured_status sc) else bytes "500"
code_of false sc = decimal (captured_status sc)

-- The metrics, the calls that reach the wrapped writer, and whether the panic goes on.
unfoldable pub instrument_handler :
    Bytes → Bytes → List WriterCall → Bool → ℕ → Metrics → Metrics × (List WriterCall × Bool)
instrument_handler url_path method calls panics elapsed m =
    let handler = handler_label url_path in
    let sc = serve calls new_status_capture in
    (
      dec handler (
          observe (record { handler = handler; method = method; code_label = code_of panics sc })
            elapsed (inc handler m)),
      (sc.forwarded, panics),
    )
