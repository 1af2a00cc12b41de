-- ===== src/Gateway/Health.antt =====
-- internal/gatewayhttp/gatewayhttp.go: the cluster's health, of what the observer answers.
use ironwork.Prelude.{refl, arith, ℕ, ◌≡◌, ◌↔◌, String, Option, none, some, List, map, All}
use ironwork.Observer.{ServingStatus, serving, not_serving, ComponentHealth, cluster_check}
use ironwork.Observer.Aggregate.{DbServes, cluster_check-serving}

-- The enum `ServingStatus` on the wire.
pub data WireServing : Type 0 where
  unspecified serves serves_not : WireServing
  other : ℕ → WireServing

-- The number of a status that the observer sends.
abbrev pub serving_to_proto : ServingStatus → WireServing
serving_to_proto serving = serves
serving_to_proto not_serving = serves_not

-- statusString
abbrev pub status_string : WireServing → String
status_string serves = "SERVING"
status_string serves_not = "NOT_SERVING"
status_string _ = "UNKNOWN"

-- componentHealth, and a component of the response `ClusterCheck`
pub record WireComponent (S : Type 0) : Type 0 where
  pub name : String
  pub status : S
  pub message : String

-- healthResponse
pub record HealthResponse : Type 0 where
  pub status : String
  pub components : List (WireComponent String)

abbrev render_component : WireComponent WireServing → WireComponent String
render_component c = record { name = c.name; status = status_string c.status; message = c.message }

abbrev code_of : WireServing → ℕ
code_of serves = 200
code_of _ = 503

-- handleHealth; `none` is a failed call
unfoldable pub handle_health :
    Option (WireServing × List (WireComponent WireServing)) → ℕ × HealthResponse
handle_health none = (502, record { status = "UNREACHABLE"; components = List.[] })
handle_health (some (status, components)) = (
  code_of status,
  record { status = status_string status; components = map render_component components },
)

abbrev sent : ComponentHealth → WireComponent WireServing
sent c = record { name = c.name; status = serving_to_proto c.status; message = c.message }

-- What the observer sends of its check.
abbrev pub send_check :
    ServingStatus × List ComponentHealth → WireServing × List (WireComponent WireServing)
send_check (status, components) = (serving_to_proto status, map sent components)

code_of-serving : (s : ServingStatus) → (code_of (serving_to_proto s) ≡ 200) ↔ (s ≡ serving)
code_of-serving serving = (λ h. refl, λ h. refl)
code_of-serving not_serving = ground arith

-- The gateway answers 200 exactly when every target answers the observer's check and
-- the database, where the observer has one, its ping.
pub handle_health-cluster_check :
    (check : String → Option String) (targets : List (String × String))
    (db : Option (Option String))
    → ((handle_health (some (send_check (cluster_check check targets db)))).0 ≡ 200)
      ↔ (All (λ (t : String × String). check t.1 ≡ none) targets × DbServes db)
unfolding handle_health
handle_health-cluster_check check targets db =
    let a = code_of-serving (cluster_check check targets db).0 in
    let b = cluster_check-serving check targets db in (λ h. b.0 (a.0 h), λ h. a.1 (b.1 h))
