-- ===== src/Components/Tests.antt =====
-- The relations of one tenant.
use telemetry_controller.Prelude.{◌≡◌, refl, true, none, some, [], ◌∷◌, In}
use telemetry_controller.Api.{OutputAuth}
use telemetry_controller.Cluster.{ok}
use telemetry_controller.Sample.{sample, acme, disk, all_logs, all_name, disk_name}
use telemetry_controller.Components.{ResourceRelations, find_tenant_for_output, query_output_secret}
use telemetry_controller.Components.Secrets.{is_ok, is_usable, query_output_secret_usable}
use telemetry_controller.Components.Relations.{Reaches, find_tenant_for_output-ok}

abbrev relations : ResourceRelations
relations = record {
  tenants = acme ∷ [];
  subscriptions = (all_name, all_logs) ∷ [];
  bridges = [];
  outputs_with_secret_data = [];
  tenant_subscription_map = ("acme", some (all_name ∷ [])) ∷ [];
  subscription_output_map = (all_name, some (disk_name ∷ [])) ∷ [];
  allocated = true;
}

found_test : find_tenant_for_output relations disk_name ≡ ok acme
unfolding find_tenant_for_output
found_test = refl

find_tenant_for_output-ok_example :
    In acme (acme ∷ []) × Reaches relations relations.tenant_subscription_map disk_name acme
find_tenant_for_output-ok_example = find_tenant_for_output-ok relations disk_name acme found_test

abbrev basic : OutputAuth
basic = record {
  basic_auth = some (record {
    secret_ref = some (record { name = "credentials"; namespace = "web" });
    username_field = "";
    password_field = "";
  });
  bearer_auth = none;
}

query_output_secret_usable_example :
    is_ok (query_output_secret sample disk basic []).0 ≡ is_usable (λ _. true) basic
query_output_secret_usable_example =
    query_output_secret_usable sample (λ _. true) (λ r w. refl) disk basic []
