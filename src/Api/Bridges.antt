-- ===== src/Api/Bridges.antt =====
-- api/telemetry/v1alpha1/bridge_types.go. Bridges have no namespace.
use telemetry_controller.Prelude.{ℕ, String, Option, some, List, [], items, length}
use telemetry_controller.Api.Names.{State}

pub record BridgeSpec : Type 0 where
  pub source_tenant : String
  pub target_tenant : String
  pub condition : String

pub record BridgeStatus : Type 0 where
  pub state : State
  pub problems : Option (List String)
  pub problems_count : ℕ

pub record Bridge : Type 0 where
  pub name : String
  pub spec : BridgeSpec
  pub status : BridgeStatus

-- Bridge.SetProblems
abbrev pub set_bridge_problems : Option (List String) → Bridge → Bridge
set_bridge_problems ps b = record b {
  status = record b.status { problems = ps; problems_count = length (items ps) };
}

-- Bridge.ClearProblems
abbrev pub clear_bridge_problems : Bridge → Bridge
clear_bridge_problems b = set_bridge_problems (some []) b

-- bridge.Status.State = s
abbrev pub set_bridge_state : State → Bridge → Bridge
set_bridge_state s b = record b { status = record b.status { state = s } }
