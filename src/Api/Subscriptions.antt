-- ===== src/Api/Subscriptions.antt =====
-- api/telemetry/v1alpha1/subscription_types.go.
use telemetry_controller.Prelude.{ℕ, String, Option, some, List, [], items, length}
use telemetry_controller.Api.Names.{NamespacedName, State}

pub record SubscriptionSpec : Type 0 where
  pub condition : String
  pub outputs : List NamespacedName

pub record SubscriptionStatus : Type 0 where
  pub tenant : String
  pub outputs : Option (List NamespacedName)
  pub state : State
  pub problems : Option (List String)
  pub problems_count : ℕ

pub record Subscription : Type 0 where
  pub namespace : String
  pub name : String
  pub spec : SubscriptionSpec
  pub status : SubscriptionStatus

-- Subscription.NamespacedName
abbrev pub subscription_name : Subscription → NamespacedName
subscription_name s = record { namespace = s.namespace; name = s.name }

-- Subscription.SetProblems
abbrev pub set_subscription_problems : Option (List String) → Subscription → Subscription
set_subscription_problems ps s = record s {
  status = record s.status { problems = ps; problems_count = length (items ps) };
}

-- Subscription.SetState
abbrev pub set_subscription_state : State → Subscription → Subscription
set_subscription_state st s = record s { status = record s.status { state = st } }

-- Subscription.SetTenant
abbrev pub set_subscription_tenant : String → Subscription → Subscription
set_subscription_tenant t s = record s { status = record s.status { tenant = t } }

-- Subscription.ClearProblems
abbrev pub clear_subscription_problems : Subscription → Subscription
clear_subscription_problems s = set_subscription_problems (some []) s
