-- ===== src/ProjectManager/Exec.antt =====
-- Calls of the GitHub API: functions of the requests that were sent before.
use coraza_kubernetes_operat.Prelude.{List}
use coraza_kubernetes_operat.Prelude.Bytes.{Bytes}
use coraza_kubernetes_operat.Prelude.Assoc.{Assoc}
use coraza_kubernetes_operat.Controller.Errors.{wrap}
use coraza_kubernetes_operat.CoreRuleSet.Options.{Outcome, ok, err, concat}

pub record Request : Type 0 where
  pub method : Bytes
  pub url : Bytes
  pub body : Bytes
  pub headers : Assoc Bytes

abbrev pub Exec : Type 0 → Type 0
Exec A = List Request → Outcome A × List Request

abbrev pub continue :
    {A B : Type 0} → Outcome A × List Request → (A → Exec B) → Outcome B × List Request
continue (ok a, sent) f = f a sent
continue (err e, sent) f = (err e, sent)

infixl 5 ◌>>=◌ ◌>>◌
abbrev pub ◌>>=◌ : {A B : Type 0} → Exec A → (A → Exec B) → Exec B
m >>= f = λ sent. continue (m sent) f

abbrev pub ◌>>◌ : {B : Type 0} → Exec (Unit {0}) → Exec B → Exec B
m >> k = m >>= λ _. k

-- What a computation without calls returns.
abbrev pub give : {A : Type 0} → Outcome A → Exec A
give o = λ sent. (o, sent)

abbrev pub wrap_result : {A : Type 0} → List Bytes → Outcome A → Outcome A
wrap_result parts (ok a) = ok a
wrap_result parts (err e) = err (wrap (concat parts) e)

abbrev pub wrap_pair :
    {A : Type 0} → List Bytes → Outcome A × List Request → Outcome A × List Request
wrap_pair parts (o, sent) = (wrap_result parts o, sent)

-- fmt.Errorf with %w at the end, where the call fails.
unfoldable pub wrapped : {A : Type 0} → List Bytes → Exec A → Exec A
wrapped parts m = λ sent. wrap_pair parts (m sent)
