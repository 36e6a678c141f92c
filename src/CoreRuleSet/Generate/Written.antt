-- ===== src/CoreRuleSet/Generate/Written.antt =====
-- What a run of Generate leaves on stdout.
use coraza_kubernetes_operat.Prelude.{take, ◌⊎◌, List, [], ◌∷◌, ◌++◌, ◌≡◌, Option, none, some}
use coraza_kubernetes_operat.Prelude.Bytes.{Bytes}
use coraza_kubernetes_operat.Controller.Errors.{GoError}
use coraza_kubernetes_operat.CoreRuleSet.Options.{ok, err, concat, Options, Host}
use coraza_kubernetes_operat.CoreRuleSet.Generate.{
  validate_resource_names, Writer, WriteFailure, manifest_chunks, Plan, plan,
}
use coraza_kubernetes_operat.CoreRuleSet.Generate.Report.{Run, result_of}

-- The text that a run of writes leaves: all of it, or what stands before the write that fails, with
-- the bytes that this one has written.
abbrev Wrote : Writer → Bytes → List Bytes → Bytes × Option GoError → Type 0
Wrote w before chunks (out, none) = out ≡ before ++ concat chunks
Wrote w before chunks (out, some e) =
    (done : List Bytes) × (failed : Bytes) × (left : List Bytes) × (f : WriteFailure) × (chunks
      ≡ done ++ failed ∷ left)
    × (w (before ++ concat done) failed ≡ some f)
    × (e ≡ f.cause)
    × (out ≡ before ++ (concat done ++ take f.accepted failed))

-- How a run ends: refused with nothing on stdout and the error of the names or of the plan, with all
-- manifests of the planned bundle written, or with the error of a write, where stdout has the documents
-- before it and the beginning of its own.
pub data Ends (host : Host) (w : Writer) (opts : Options) (r : Run) : Type 0 where
  refused :
      (e : GoError)
      → (validate_resource_names host opts ≡ err e) ⊎ (plan host opts ≡ err e)
      → r.result ≡ err e
      → r.stdout ≡ []
      → Ends host w opts r
  written :
      (p : Plan)
      → plan host opts ≡ ok p
      → r.result ≡ ok (result_of opts p)
      → r.stdout ≡ concat (manifest_chunks p.bundle)
      → Ends host w opts r
  interrupted :
      (p : Plan) (done : List Bytes) (failed : Bytes) (left : List Bytes) (f : WriteFailure)
      → plan host opts ≡ ok p
      → manifest_chunks p.bundle ≡ done ++ failed ∷ left
      → w (concat done) failed ≡ some f
      → r.result ≡ err f.cause
      → r.stdout ≡ concat done ++ take f.accepted failed
      → Ends host w opts r
