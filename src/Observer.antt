-- ===== src/Observer.antt =====
-- internal/observersvc/observersvc.go: the health of the cluster. The checks run at the same time and
-- append their results in any order; they are sorted by name at the end. What a target answers is a
-- parameter, `none` for a target that serves.
pub mod Targets
pub mod Aggregate
use ironwork.Prelude.{
  String, Bool, true, false, Option, none, some, List, [], ◌∷◌, ◌++◌, lt_str, if◌then◌else◌,
}
use ironwork.Sort.{sort}

pub data ServingStatus : Type 0 where
  serving not_serving : ServingStatus

pub record ComponentHealth : Type 0 where
  pub name : String
  pub status : ServingStatus
  pub message : String

abbrev db_component_name : String
db_component_name = "postgres-primary"

-- componentHealth
abbrev pub component_health : String → Option String → ComponentHealth
component_health name none = record { name = name; status = serving; message = "" }
component_health name (some text) = record { name = name; status = not_serving; message = text }

abbrev pub is_serving : ServingStatus → Bool
is_serving serving = true
is_serving not_serving = false

unfoldable pub check_all : (String → Option String) → List (String × String) → List ComponentHealth
check_all check [] = []
check_all check ((name, addr) ∷ targets) =
    component_health name (check addr) ∷ check_all check targets

-- The database's component; `none` where the server has no database.
abbrev pub check_db : Option (Option String) → List ComponentHealth
check_db none = []
check_db (some ping) = component_health db_component_name ping ∷ []

abbrev pub by_name : ComponentHealth → ComponentHealth → Bool
by_name a b = lt_str a.name b.name

unfoldable pub overall : ServingStatus → List ComponentHealth → ServingStatus
overall status [] = status
overall status (c ∷ components) =
    overall (if is_serving c.status then status else not_serving) components

-- ClusterCheck: the overall status, and the components
unfoldable pub cluster_check :
    (String → Option String)
    → List (String × String)
    → Option (Option String)
    → ServingStatus × List ComponentHealth
cluster_check check targets db =
    let components = sort by_name (check_all check targets ++ check_db db) in
    (overall serving components, components)
