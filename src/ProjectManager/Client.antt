-- ===== src/ProjectManager/Client.antt =====
-- tools/github_project_manager/github.go: GitHubClient over REST. The network, package encoding/json and
-- url.PathEscape are the parameter `Network`.
use coraza_kubernetes_operat.Prelude.{
  ℕ, Bool, true, false, not, ◌||◌, List, [], ◌∷◌, ◌++◌, Option, none, some, ◌==◌, if◌then◌else◌,
}
use coraza_kubernetes_operat.Prelude.Bytes.{Bytes, bytes}
use coraza_kubernetes_operat.Prelude.Assoc.{Assoc}
use coraza_kubernetes_operat.Controller.Errors.{GoError, wrap}
use coraza_kubernetes_operat.RuleSets.Unsupported.Decimal.{decimal}
use coraza_kubernetes_operat.CoreRuleSet.Strings.{is_empty}
use coraza_kubernetes_operat.CoreRuleSet.Options.{Outcome, ok, err, errorf, concat}
use coraza_kubernetes_operat.ProjectManager.PullRequests.{Milestone}
use coraza_kubernetes_operat.ProjectManager.Exec.{Request, Exec, ◌>>=◌, give, wrapped}

pub record Issue : Type 0 where
  pub number : ℕ
  pub state : Bytes
  pub body : Bytes
  pub labels : List Bytes
  pub milestone : Option (Unit {0})

abbrev pub has_milestone : Issue → Bool
has_milestone i = elim i.milestone [ none ↦ false | some _ ↦ true ]

pub record PullRequestInfo : Type 0 where
  pub node_id : Bytes
  pub additions : ℕ
  pub deletions : ℕ

pub record ProjectNode : Type 0 where
  pub id : Bytes
  pub number : ℕ
  pub closed : Bool

pub record StatusField : Type 0 where
  pub id : Bytes
  pub options : List (Bytes × Bytes)

-- What comes back for a request: no request could be made, it could not be executed, its body could not
-- be read, or it has a status and a body.
pub data Reply : Type 0 where
  not_created not_executed not_read : GoError → Reply
  answered : ℕ → Bytes → Reply

-- A value of a variable of a GraphQL query.
pub data Value : Type 0 where
  text_value : Bytes → Value
  number_value : ℕ → Value

pub record Network : Type 0 where
  pub reply : List Request → Request → Reply
  pub quote : Bytes → Bytes
  pub path_escape : Bytes → Bytes
  pub encode_labels : List Bytes → Outcome Bytes
  pub encode_milestone : ℕ → Outcome Bytes
  pub encode_query : Bytes → Assoc Value → Outcome Bytes
  pub decode_issue : Bytes → Outcome Issue
  pub decode_milestones : Bytes → Outcome (List Milestone)
  pub decode_info : Bytes → Outcome PullRequestInfo
  pub decode_files : Bytes → Outcome (List Bytes)
  pub decode_graphql : Bytes → Outcome (Bytes × List Bytes)
  pub decode_org_projects : Bytes → Outcome (List ProjectNode)
  pub decode_user_projects : Bytes → Outcome (List ProjectNode)
  pub decode_org_project : Bytes → Outcome Bytes
  pub decode_user_project : Bytes → Outcome Bytes
  pub decode_added_item : Bytes → Outcome Bytes
  pub decode_status_field : Bytes → Outcome StatusField

pub record GitHubClient : Type 0 where
  pub token : Bytes
  pub owner : Bytes
  pub repo : Bytes
  pub base_url : Bytes

abbrev pub default_base_url : Bytes
default_base_url = bytes "https://api.github.com"

pub new_github_client : Bytes → Bytes → Bytes → GitHubClient
new_github_client token owner repo = record {
  token = token;
  owner = owner;
  repo = repo;
  base_url = default_base_url;
}

module _ (net : Network) (c : GitHubClient) where
  unfoldable pub issue_url : ℕ → Bytes
  issue_url number = concat (
      c.base_url
      ∷ bytes "/repos/"
      ∷ c.owner
      ∷ bytes "/"
      ∷ c.repo
      ∷ bytes "/issues/"
      ∷ decimal number
      ∷ [])

  unfoldable pub issue_labels_url : ℕ → Bytes
  unfolding issue_url
  issue_labels_url number = issue_url number ++ bytes "/labels"

  unfoldable pub issue_label_url : ℕ → Bytes → Bytes
  unfolding issue_url
  issue_label_url number label = issue_url number ++ (bytes "/labels/" ++ net.path_escape label)

  abbrev header_if : Bool → Bytes → Bytes → Assoc Bytes
  header_if true k v = (k, v) ∷ []
  header_if false k v = []

  unfoldable pub request_of : Bytes → Bytes → Bytes → Request
  request_of method url body = record {
    method = method;
    url = url;
    body = body;
    headers =
        (bytes "Accept", bytes "application/vnd.github+json")
        ∷ (bytes "X-GitHub-Api-Version", bytes "2022-11-28")
        ∷ (bytes "User-Agent", bytes "github_project_manager/1.0")
        ∷ (header_if (not (is_empty c.token)) (bytes "Authorization") (bytes "Bearer " ++ c.token)
            ++ header_if (not (is_empty body)) (bytes "Content-Type") (bytes "application/json"));
  }

  abbrev reply_of : Reply → Outcome (Bytes × ℕ)
  reply_of (not_created e) = err (wrap (bytes "creating request: ") e)
  reply_of (not_executed e) = err (wrap (bytes "executing request: ") e)
  reply_of (not_read e) = err (wrap (bytes "reading response: ") e)
  reply_of (answered status body) = ok (body, status)

  unfoldable pub do_request : Bytes → Bytes → Bytes → Exec (Bytes × ℕ)
  unfolding request_of
  do_request method url body =
      λ sent. let r = request_of method url body in (reply_of (net.reply sent r), sent ++ r ∷ [])

  abbrev pub status_error : {A : Type 0} → ℕ → Bytes → Outcome A
  status_error status body = errorf (bytes "status " ∷ decimal status ∷ bytes ": " ∷ body ∷ [])

  abbrev decode_ok : {A : Type 0} → (Bytes → Outcome A) → Bytes × ℕ → Outcome A
  decode_ok decode (body, status) = if status == 200 then decode body else status_error status body

  unfoldable pub get_json : {A : Type 0} → Bytes → (Bytes → Outcome A) → Exec A
  unfolding do_request
  get_json url decode = do_request (bytes "GET") url [] >>= λ r. give (decode_ok decode r)

  unfoldable pub patch_json : Bytes → Bytes → Exec (Unit {0})
  unfolding do_request
  patch_json url payload =
      do_request (bytes "PATCH") url payload >>= λ r. give (decode_ok (λ _. ok tt) r)

  unfoldable pub get_issue : ℕ → Exec Issue
  unfolding get_json
  get_issue n =
      wrapped (bytes "fetching issue #" ∷ decimal n ∷ bytes ": " ∷ [])
        (get_json (issue_url n) net.decode_issue)

  abbrev labels_added : ℕ → Bytes × ℕ → Outcome (Unit {0})
  labels_added n (body, status) =
      if status == 200
      then ok tt
      else errorf (
          bytes "adding labels to #"
          ∷ decimal n
          ∷ bytes ": status "
          ∷ decimal status
          ∷ bytes ": "
          ∷ body
          ∷ [])

  unfoldable pub add_labels : ℕ → List Bytes → Exec (Unit {0})
  unfolding do_request
  add_labels n labels =
      wrapped (bytes "encoding labels for #" ∷ decimal n ∷ bytes ": " ∷ [])
        (give (net.encode_labels labels))
      >>= λ payload.
          wrapped (bytes "adding labels to #" ∷ decimal n ∷ bytes ": " ∷ [])
            (do_request (bytes "POST") (issue_labels_url n) payload)
          >>= λ r. give (labels_added n r)

  abbrev removing : ℕ → Bytes → List Bytes
  removing n label =
      bytes "removing label " ∷ net.quote label ∷ bytes " from #" ∷ decimal n ∷ bytes ": " ∷ []

  -- 200 for a label that is removed, 404 for one that is already gone.
  abbrev label_removed : ℕ → Bytes → Bytes × ℕ → Outcome (Unit {0})
  label_removed n label (body, status) =
      if status == 200 || status == 404
      then ok tt
      else errorf (removing n label ++ bytes "status " ∷ decimal status ∷ bytes ": " ∷ body ∷ [])

  unfoldable pub remove_label : ℕ → Bytes → Exec (Unit {0})
  unfolding do_request
  remove_label n label =
      wrapped (removing n label) (do_request (bytes "DELETE") (issue_label_url n label) []) >>= λ r.
      give (label_removed n label r)

  unfoldable pub close_issue : ℕ → Exec (Unit {0})
  unfolding patch_json
  close_issue n =
      wrapped (bytes "closing issue #" ∷ decimal n ∷ bytes ": " ∷ [])
        (patch_json (issue_url n) (bytes "{\"state\":\"closed\"}"))

  unfoldable pub remove_milestone : ℕ → Exec (Unit {0})
  unfolding patch_json
  remove_milestone n =
      wrapped (bytes "removing milestone from #" ∷ decimal n ∷ bytes ": " ∷ [])
        (patch_json (issue_url n) (bytes "{\"milestone\":null}"))

  abbrev repo_url : List Bytes → Bytes
  repo_url rest = concat (c.base_url ∷ bytes "/repos/" ∷ c.owner ∷ bytes "/" ∷ c.repo ∷ rest)

  unfoldable pub list_open_milestones : Exec (List Milestone)
  unfolding get_json
  list_open_milestones =
      wrapped (bytes "listing milestones: " ∷ []) (
        get_json (repo_url (bytes "/milestones?state=open&per_page=100" ∷ []))
          net.decode_milestones)

  unfoldable pub set_milestone : ℕ → ℕ → Exec (Unit {0})
  unfolding patch_json
  set_milestone n milestone_number =
      wrapped (bytes "encoding milestone for #" ∷ decimal n ∷ bytes ": " ∷ [])
        (give (net.encode_milestone milestone_number))
      >>= λ payload.
          wrapped (bytes "setting milestone on #" ∷ decimal n ∷ bytes ": " ∷ [])
            (patch_json (issue_url n) payload)

  unfoldable pub get_pull_request_info : ℕ → Exec PullRequestInfo
  unfolding get_json
  get_pull_request_info n =
      wrapped (bytes "fetching PR #" ∷ decimal n ∷ bytes " info: " ∷ [])
        (get_json (repo_url (bytes "/pulls/" ∷ decimal n ∷ [])) net.decode_info)

  unfoldable pub get_pull_request_files : ℕ → Exec (List Bytes)
  unfolding get_json
  get_pull_request_files n = wrapped (bytes "fetching PR #" ∷ decimal n ∷ bytes " files: " ∷ []) (
      get_json (repo_url (bytes "/pulls/" ∷ decimal n ∷ bytes "/files?per_page=100" ∷ []))
        net.decode_files)
