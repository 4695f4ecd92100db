-- ===== src/Examples/Requests.antt =====
-- Concrete runs of requests to the API.
use maild.Base.{◌≡◌, refl, false, some, none, [], ◌∷◌, str_eq, if◌then◌else◌}
use maild.Base.Int.{pos}
use maild.Store.Elsewhere.{SameElsewhere}
use maild.World.Ends.{Post}
use maild.Service.Policy.{default_workspace}
use maild.Service.Incident.{incident_bundle}
use maild.Service.Incident.Laws.{IsOwn, incident_bundle-IsOwn}
use maild.ApiKey.{Principal}
use maild.Api.Routes.{Call, suppressions, serve, checklist, serve_read}
use maild.Api.Defs.{Query}
use maild.DomainCheck.{not_found}
use maild.Api.Reads.{serve_read_keeps}
use maild.Api.Isolation.{serve_isolates, serve_viewer}
use maild.Examples.{service, world}

-- an administrator of workspace 2, who asks for a row of workspace 2
abbrev owner : Principal
owner = record { user_id = pos 8; workspace_id = pos 2; role = "admin"; global = false }

abbrev suppress_ann : Call
suppress_ann =
    suppressions "POST"
      (some (record { workspace_id = pos 0; email = "ann@example.org"; reason = "" }))

serve_isolates_example :
    SameElsewhere 2 world.state.db (serve service (some owner) suppress_ann world).1.state.db
serve_isolates_example = serve_isolates service owner 2 suppress_ann world refl refl refl

abbrev viewer : Principal
viewer = record { user_id = pos 9; workspace_id = pos 2; role = "viewer"; global = false }

serve_viewer_example : (serve service (some viewer) suppress_ann world).1 ≡ world
serve_viewer_example = serve_viewer service viewer suppress_ann world refl refl

incident_bundle-IsOwn_example :
    Post
      (IsOwn (default_workspace 1) 2 world.state.db)
      (λ _. Unit {0})
      (incident_bundle 1 (pos 2) world).0
incident_bundle-IsOwn_example = incident_bundle-IsOwn 1 (pos 2) world

-- a query for the checklist of the own workspace and a domain
abbrev asked : Query
asked = record {
  values = λ key. if str_eq key "domain" then "example.org" ∷ [] else [];
  parse_int = λ t. none;
  atoi = λ t. none;
  parse_time = λ t. none;
}

serve_read_keeps_example :
    (serve_read service (some viewer) (checklist (λ name. not_found) "GET" asked) world).1.state
    ≡ world.state
serve_read_keeps_example =
    serve_read_keeps service (some viewer) (checklist (λ name. not_found) "GET" asked) world
