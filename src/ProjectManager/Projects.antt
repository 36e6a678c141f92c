-- ===== src/ProjectManager/Projects.antt =====
-- tools/github_project_manager/github.go: the project boards, over GraphQL.
use coraza_kubernetes_operat.Prelude.{
  ℕ, not, List, [], ◌∷◌, ◌++◌, Option, none, some, ltb, ◌==◌, if◌then◌else◌,
}
use coraza_kubernetes_operat.Prelude.Bytes.{Bytes, bytes, bytes_eq}
use coraza_kubernetes_operat.Prelude.Assoc.{Assoc}
use coraza_kubernetes_operat.RuleSets.Unsupported.Decimal.{decimal}
use coraza_kubernetes_operat.CoreRuleSet.Strings.{is_empty, to_lower}
use coraza_kubernetes_operat.CoreRuleSet.Options.{Outcome, ok, err, errorf}
use coraza_kubernetes_operat.ProjectManager.Exec.{Request, Exec, ◌>>=◌, give, wrapped}
use coraza_kubernetes_operat.ProjectManager.Client.{
  ProjectNode, Value, text_value, number_value, Network, GitHubClient, do_request,
}

abbrev older : Option ProjectNode → ProjectNode → Option ProjectNode
older none n = some n
older (some best) n = if ltb n.number best.number then some n else some best

-- The loop of pickOldestOpen.
unfoldable pub pick_oldest_open_from : Option ProjectNode → List ProjectNode → Option ProjectNode
pick_oldest_open_from best [] = best
pick_oldest_open_from best (n ∷ nodes) =
    pick_oldest_open_from (if n.closed then best else older best n) nodes

abbrev id_of : Option ProjectNode → Option Bytes
id_of none = none
id_of (some n) = some n.id

unfoldable pub pick_oldest_open : List ProjectNode → Option Bytes
unfolding pick_oldest_open_from
pick_oldest_open nodes = id_of (pick_oldest_open_from none nodes)

-- What a query of the organisation gives, where it gives anything.
abbrev or_nothing :
    {A : Type 0} → Outcome (Option A) × List Request → Outcome (Option A) × List Request
or_nothing (ok a, sent) = (ok a, sent)
or_nothing (err e, sent) = (ok none, sent)

abbrev attempt : {A : Type 0} → Exec (Option A) → Exec (Option A)
attempt m = λ sent. or_nothing (m sent)

abbrev or_else : {A : Type 0} → Exec A → Option A → Exec A
or_else later none = later
or_else later (some a) = give (ok a)

module _ (net : Network) (c : GitHubClient) where
  abbrev graphql_data : Bytes × List Bytes → Outcome Bytes
  graphql_data (d, []) = ok d
  graphql_data (d, message ∷ errors) = errorf (bytes "GraphQL error: " ∷ message ∷ [])

  abbrev graphql_reply : Bytes × ℕ → Exec Bytes
  graphql_reply (body, status) =
      if not (status == 200)
      then give
          (errorf (bytes "GraphQL request: status " ∷ decimal status ∷ bytes ": " ∷ body ∷ []))
      else (wrapped (bytes "decoding GraphQL response: " ∷ []) (give (net.decode_graphql body))
          >>= λ r. give (graphql_data r))

  unfoldable pub do_graphql : Bytes → Assoc Value → Exec Bytes
  do_graphql query variables =
      wrapped (bytes "encoding GraphQL request: " ∷ []) (give (net.encode_query query variables))
      >>= λ payload.
          wrapped (bytes "executing GraphQL request: " ∷ [])
            (do_request net c (bytes "POST") (c.base_url ++ bytes "/graphql") payload)
          >>= graphql_reply

  abbrev owner_value : Assoc Value
  owner_value = (bytes "owner", text_value c.owner) ∷ []

  abbrev no_open_projects : Option Bytes → Outcome Bytes
  no_open_projects (some id) = ok id
  no_open_projects none = errorf (bytes "no open projects found for " ∷ c.owner ∷ [])

  abbrev oldest_of : Outcome (List ProjectNode) → Outcome (Option Bytes)
  oldest_of (ok nodes) = ok (pick_oldest_open nodes)
  oldest_of (err e) = err e

  unfoldable pub find_oldest_open_project : Exec Bytes
  unfolding do_graphql pick_oldest_open
  find_oldest_open_project =
      attempt (
        do_graphql
          (bytes
            "query($owner: String!) {\n\t\torganization(login: $owner) {\n\t\t\tprojectsV2(first: 100) { nodes { id number closed } }\n\t\t}\n\t}")
          owner_value
        >>= λ d. give (oldest_of (net.decode_org_projects d)))
      >>= or_else (
          wrapped (bytes "listing projects for " ∷ c.owner ∷ bytes ": " ∷ []) (
            do_graphql
              (bytes
                "query($owner: String!) {\n\t\tuser(login: $owner) {\n\t\t\tprojectsV2(first: 100) { nodes { id number closed } }\n\t\t}\n\t}")
              owner_value)
          >>= λ d.
              wrapped (bytes "decoding user projects: " ∷ []) (give (net.decode_user_projects d))
              >>= λ nodes. give (no_open_projects (pick_oldest_open nodes)))

  abbrev filled : Outcome Bytes → Outcome (Option Bytes)
  filled (ok id) = ok (if is_empty id then none else some id)
  filled (err e) = err e

  abbrev found_project : ℕ → Bytes → Outcome Bytes
  found_project n id =
      if is_empty id
      then errorf (bytes "project #" ∷ decimal n ∷ bytes " not found" ∷ [])
      else ok id

  abbrev project_values : ℕ → Assoc Value
  project_values n = (bytes "owner", text_value c.owner) ∷ (bytes "number", number_value n) ∷ []

  unfoldable pub lookup_project_id : ℕ → Exec Bytes
  unfolding do_graphql
  lookup_project_id n =
      attempt (
        do_graphql
          (bytes
            "query($owner: String!, $number: Int!) {\n\t\torganization(login: $owner) { projectV2(number: $number) { id } }\n\t}")
          (project_values n)
        >>= λ d. give (filled (net.decode_org_project d)))
      >>= or_else (
          wrapped (bytes "looking up project #" ∷ decimal n ∷ bytes ": " ∷ []) (
            do_graphql
              (bytes
                "query($owner: String!, $number: Int!) {\n\t\tuser(login: $owner) { projectV2(number: $number) { id } }\n\t}")
              (project_values n))
          >>= λ d.
              wrapped (bytes "decoding user project: " ∷ []) (give (net.decode_user_project d))
              >>= λ id. give (found_project n id))

  -- strings.EqualFold, for the letters of ASCII.
  abbrev find_option : Bytes → List (Bytes × Bytes) → Option Bytes
  find_option name [] = none
  find_option name ((id, option_name) ∷ options) =
      let rest = find_option name options in
      if bytes_eq (to_lower option_name) (to_lower name) then some id else rest

  abbrev option_of : Bytes → Bytes → Option Bytes → Outcome (Bytes × Bytes)
  option_of status_name field_id (some option_id) = ok (field_id, option_id)
  option_of status_name field_id none =
      errorf (bytes "status option " ∷ net.quote status_name ∷ bytes " not found in project" ∷ [])

  unfoldable pub lookup_status_option : Bytes → Bytes → Exec (Bytes × Bytes)
  unfolding do_graphql
  lookup_status_option project_id status_name =
      wrapped (bytes "looking up Status field: " ∷ []) (
        do_graphql
          (bytes
            "query($project: ID!) {\n\t\tnode(id: $project) {\n\t\t\t... on ProjectV2 {\n\t\t\t\tfield(name: \"Status\") {\n\t\t\t\t\t... on ProjectV2SingleSelectField {\n\t\t\t\t\t\tid\n\t\t\t\t\t\toptions { id name }\n\t\t\t\t\t}\n\t\t\t\t}\n\t\t\t}\n\t\t}\n\t}")
          ((bytes "project", text_value project_id) ∷ []))
      >>= λ d.
          wrapped (bytes "decoding Status field: " ∷ []) (give (net.decode_status_field d))
          >>= λ field. give (option_of status_name field.id (find_option status_name field.options))

  abbrev set_status : Bytes → Bytes → Bytes → Bytes × Bytes → Exec (Unit {0})
  set_status status_name project_id item_id (field_id, option_id) =
      wrapped (bytes "setting status to " ∷ net.quote status_name ∷ bytes ": " ∷ []) (
        do_graphql
          (bytes
            "mutation($project: ID!, $item: ID!, $field: ID!, $value: ID!) {\n\t\tupdateProjectV2ItemFieldValue(input: {\n\t\t\tprojectId: $project, itemId: $item, fieldId: $field,\n\t\t\tvalue: {singleSelectOptionId: $value}\n\t\t}) { projectV2Item { id } }\n\t}")
          ((bytes "project", text_value project_id)
            ∷ (bytes "item", text_value item_id)
            ∷ (bytes "field", text_value field_id)
            ∷ (bytes "value", text_value option_id)
            ∷ []))
      >>= λ _. give (ok tt)

  unfoldable pub add_item_to_project : Bytes → Bytes → Bytes → Exec (Unit {0})
  unfolding do_graphql lookup_status_option
  add_item_to_project project_id content_id status_name =
      wrapped (bytes "adding item to project: " ∷ []) (
        do_graphql
          (bytes
            "mutation($project: ID!, $content: ID!) {\n\t\taddProjectV2ItemById(input: {projectId: $project, contentId: $content}) {\n\t\t\titem { id }\n\t\t}\n\t}")
          ((bytes "project", text_value project_id)
            ∷ (bytes "content", text_value content_id)
            ∷ []))
      >>= λ d.
          wrapped (bytes "decoding add-item response: " ∷ []) (give (net.decode_added_item d))
          >>= λ item_id.
              lookup_status_option project_id status_name
              >>= set_status status_name project_id item_id

  unfoldable pub add_to_project_board : Bytes → ℕ → Bytes → Exec (Unit {0})
  unfolding lookup_project_id add_item_to_project
  add_to_project_board pr_node_id n status_name =
      lookup_project_id n >>= λ project_id. add_item_to_project project_id pr_node_id status_name
