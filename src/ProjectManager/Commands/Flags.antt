-- ===== src/ProjectManager/Commands/Flags.antt =====
-- tools/github_project_manager/main.go: parseConfig and run. Package flag, strconv.Atoi and the environment
-- are the parameter `Setting`; issue numbers are not negative.
use coraza_kubernetes_operat.Prelude.{
  refl, subst, subst, arith, arith, ◌≡◌, ℕ, Bool, true, false, ◌||◌, List, [], ◌∷◌, ◌==◌,
  if◌then◌else◌,
}
use coraza_kubernetes_operat.Prelude.Bytes.{Bytes, bytes}
use coraza_kubernetes_operat.Controller.Errors.{GoError}
use coraza_kubernetes_operat.CoreRuleSet.Strings.{is_empty}
use coraza_kubernetes_operat.CoreRuleSet.Options.{Outcome, ok, err, errorf}
use coraza_kubernetes_operat.ProjectManager.PullRequests.{Semver}
use coraza_kubernetes_operat.ProjectManager.Exec.{Exec, ◌>>=◌, give, wrap_result}
use coraza_kubernetes_operat.ProjectManager.Client.{Network, new_github_client}
use coraza_kubernetes_operat.ProjectManager.Commands.{Config, usage, dispatch}

-- The flags of a command line, and its arguments behind them.
pub record Parsed : Type 0 where
  pub verbose : Bool
  pub dry_run : Bool
  pub owner : Bytes
  pub repo : Bytes
  pub issue : ℕ
  pub project : ℕ
  pub remaining : List Bytes

pub record Setting : Type 0 where
  pub parse_flags : List Bytes → Outcome Parsed
  pub getenv : Bytes → Bytes
  pub atoi : Bytes → Outcome ℕ
  pub quote : Bytes → Bytes

abbrev or_env : Bytes → Bytes → Bytes
or_env [] value = value
or_env (b ∷ s) value = b ∷ s

two_guards :
    {A : Type 0} (a t : Bool) (e f : GoError) {x y : A}
    → (if a then err e else if t then err f else ok x) ≡ ok y
    → (a ≡ false) × (t ≡ false) × (x ≡ y)
two_guards true t e f h = absurd (cc h)
two_guards false true e f h = absurd (cc h)
two_guards false false e f h = (refl, refl, cc h)

-- A run that gets a configuration has an owner, a repository, an issue and a token.
abbrev pub IsComplete : Config → Type 0
IsComplete cfg =
    (is_empty cfg.owner ≡ false)
    × (is_empty cfg.repo ≡ false)
    × ((cfg.issue == 0) ≡ false)
    × (is_empty cfg.token ≡ false)

module _ (at : Setting) where
  abbrev issue_of_env : Bytes → Outcome ℕ
  issue_of_env [] = ok 0
  issue_of_env (b ∷ v) =
      wrap_result (bytes "invalid GITHUB_ISSUE " ∷ at.quote (b ∷ v) ∷ bytes ": " ∷ [])
        (at.atoi (b ∷ v))

  abbrev issue_number : ℕ → Outcome ℕ
  issue_number n = if n == 0 then issue_of_env (at.getenv (bytes "GITHUB_ISSUE")) else ok n

  abbrev checked : Config → Outcome Config
  checked cfg =
      if is_empty cfg.owner || is_empty cfg.repo || cfg.issue == 0
      then errorf (
          bytes
            "--owner, --repo, and --issue are required (or set GITHUB_OWNER, GITHUB_REPO, GITHUB_ISSUE)"
          ∷ [])
      else if is_empty cfg.token
      then errorf (bytes "GITHUB_TOKEN environment variable is required" ∷ [])
      else ok cfg

  abbrev config_of : Parsed → Bytes → ℕ → Config
  config_of p command n = record {
    dry_run = p.dry_run;
    owner = or_env p.owner (at.getenv (bytes "GITHUB_OWNER"));
    repo = or_env p.repo (at.getenv (bytes "GITHUB_REPO"));
    issue = n;
    project = p.project;
    command = command;
    token = at.getenv (bytes "GITHUB_TOKEN");
  }

  abbrev with_issue : Parsed → Bytes → Outcome ℕ → Outcome Config
  with_issue p command (err e) = err e
  with_issue p command (ok n) = checked (config_of p command n)

  abbrev with_command : Parsed → List Bytes → Outcome Config
  with_command p [] = errorf (bytes "missing command\n\n" ∷ usage ∷ [])
  with_command p (command ∷ arguments) = with_issue p command (issue_number p.issue)

  abbrev of_parsed : Outcome Parsed → Outcome Config
  of_parsed (err e) = err e
  of_parsed (ok p) = with_command p p.remaining

  unfoldable pub parse_config : List Bytes → Outcome Config
  parse_config args = of_parsed (at.parse_flags args)

  unfoldable pub run : Network → Semver → List Bytes → Exec (Unit {0})
  unfolding parse_config
  run net semver args = give (parse_config args) >>= λ cfg.
      dispatch net semver (new_github_client cfg.token cfg.owner cfg.repo) cfg

  checked-IsComplete : (c : Config) {cfg : Config} → checked c ≡ ok cfg → IsComplete cfg
  checked-IsComplete c h =
      let (a, t, e) =
        two_guards (is_empty c.owner || is_empty c.repo || c.issue == 0) (is_empty c.token) _ _ h in
      subst IsComplete e (neither (is_empty c.owner) (is_empty c.repo) (c.issue == 0) a t)
    where
      neither :
          (x y z : Bool) {t : Bool}
          → (x || y || z) ≡ false
          → t ≡ false
          → (x ≡ false) × (y ≡ false) × (z ≡ false) × (t ≡ false)
      neither false false false a t = (refl, refl, refl, t)
      neither true y z a t = absurd (ground (arith, a))
      neither false true z a t = absurd (ground (arith, a))
      neither false false true a t = absurd (cc a)

  of_parsed-IsComplete : (o : Outcome Parsed) {cfg : Config} → of_parsed o ≡ ok cfg → IsComplete cfg
  of_parsed-IsComplete (err e) h = absurd (cc h)
  of_parsed-IsComplete (ok p) h = with_command-IsComplete p.remaining h
    where
      with_issue-IsComplete :
          (command : Bytes) (n : Outcome ℕ) {cfg : Config}
          → with_issue p command n ≡ ok cfg
          → IsComplete cfg
      with_issue-IsComplete command (err e) h = absurd (cc h)
      with_issue-IsComplete command (ok n) h = checked-IsComplete (config_of p command n) h

      with_command-IsComplete :
          (l : List Bytes) {cfg : Config} → with_command p l ≡ ok cfg → IsComplete cfg
      with_command-IsComplete [] h = absurd (cc h)
      with_command-IsComplete (command ∷ l) h =
          with_issue-IsComplete command (issue_number p.issue) h

-- A configuration that parseConfig accepts has an owner, a repository, an issue and a token.
pub parse_config-IsComplete :
    (at : Setting) (args : List Bytes) {cfg : Config}
    → parse_config at args ≡ ok cfg
    → IsComplete cfg
unfolding parse_config
parse_config-IsComplete at args = of_parsed-IsComplete at (at.parse_flags args)
