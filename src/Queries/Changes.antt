-- ===== src/Queries/Changes.antt =====
-- Any mutation of the console.
use dtsys.Prelude.{String, Bool, List, Option}
use dtsys.Api.{Value, Fields}
use dtsys.Api.Call.{api_request}
use dtsys.Queries.{MutationUse}
use dtsys.Queries.Writes.{
  ScheduleForm, update_device_mutation, resolve_alert_mutation, invite_user_mutation,
  update_user_mutation, reset_password_mutation, delete_user_mutation, create_schedule_mutation,
  toggle_schedule_mutation, update_field_mutation, token_mutation, invite_mutation,
  remove_member_mutation, change_role_mutation, create_org_mutation, delete_org_mutation,
}
use dtsys.Queries.Commands.{
  RuleForm, upsert_mutation, remove_saved_mutation, run_saved_mutation, create_policy_mutation,
  delete_policy_mutation, evaluate_mutation, create_rule_mutation, update_rule_mutation,
  disconnect_mutation, cleanup_mutation, save_config_mutation, add_to_group_mutation,
  screenshot_mutation, update_agent_mutation, maintenance_mutation, remove_ssh_key_mutation,
  dispatch_updates_mutation, create_group_mutation, dispatch_mutation, save_command_mutation,
  bulk_mutation, refresh_processes_mutation,
}

pub data Mutation : Type 0 where
  update_device_done : String → Value → Mutation
  resolve_alert_done : String → Mutation
  invite_user_done : String → String → String → Mutation
  update_user_done : String → Value → Mutation
  reset_password_done : String → String → Mutation
  delete_user_done : String → Mutation
  create_schedule_done : ScheduleForm → Mutation
  toggle_schedule_done : String → Bool → Mutation
  update_field_done : String → String → String → Mutation
  token_done : Mutation
  invite_done : String → String → String → Mutation
  remove_member_done : String → String → Mutation
  change_role_done : String → String → String → Mutation
  create_org_done : String → String → Mutation
  delete_org_done : String → Mutation
  upsert_done : Option String → Value → Mutation
  remove_saved_done : String → Mutation
  run_saved_done : String → String → Fields → Mutation
  create_policy_done : String → String → Value → Mutation
  delete_policy_done : String → Mutation
  evaluate_done : String → Mutation
  create_rule_done : RuleForm → Mutation
  update_rule_done : String → Bool → Mutation
  disconnect_done : String → Mutation
  cleanup_done : Mutation
  save_config_done : String → Value → Mutation
  add_to_group_done : String → String → Mutation
  screenshot_done : String → Mutation
  update_agent_done : String → Mutation
  maintenance_done : String → Bool → String → String → Mutation
  remove_ssh_key_done : String → String → Mutation
  dispatch_updates_done : List String → List String → Mutation
  create_group_done : String → String → Mutation
  dispatch_done : String → String → Option Fields → Mutation
  save_command_done : String → String → String → Mutation
  bulk_done : List String → String → Option Fields → Mutation
  refresh_processes_done : String → Mutation

abbrev pub mutation_of : Mutation → MutationUse
mutation_of (update_device_done id b) = update_device_mutation id b
mutation_of (resolve_alert_done id) = resolve_alert_mutation id
mutation_of (invite_user_done id b c) = invite_user_mutation id b c
mutation_of (update_user_done id b) = update_user_mutation id b
mutation_of (reset_password_done id b) = reset_password_mutation id b
mutation_of (delete_user_done id) = delete_user_mutation id
mutation_of (create_schedule_done id) = create_schedule_mutation id
mutation_of (toggle_schedule_done id b) = toggle_schedule_mutation id b
mutation_of (update_field_done id b c) = update_field_mutation id b c
mutation_of token_done = token_mutation
mutation_of (invite_done id b c) = invite_mutation id b c
mutation_of (remove_member_done id b) = remove_member_mutation id b
mutation_of (change_role_done id b c) = change_role_mutation id b c
mutation_of (create_org_done id b) = create_org_mutation id b
mutation_of (delete_org_done id) = delete_org_mutation id
mutation_of (upsert_done id b) = upsert_mutation id b
mutation_of (remove_saved_done id) = remove_saved_mutation id
mutation_of (run_saved_done id b c) = run_saved_mutation id b c
mutation_of (create_policy_done id b c) = create_policy_mutation id b c
mutation_of (delete_policy_done id) = delete_policy_mutation id
mutation_of (evaluate_done id) = evaluate_mutation id
mutation_of (create_rule_done id) = create_rule_mutation id
mutation_of (update_rule_done id b) = update_rule_mutation id b
mutation_of (disconnect_done id) = disconnect_mutation id
mutation_of cleanup_done = cleanup_mutation
mutation_of (save_config_done id b) = save_config_mutation id b
mutation_of (add_to_group_done id b) = add_to_group_mutation id b
mutation_of (screenshot_done id) = screenshot_mutation id
mutation_of (update_agent_done id) = update_agent_mutation id
mutation_of (maintenance_done id b c d) = maintenance_mutation id b c d
mutation_of (remove_ssh_key_done id b) = remove_ssh_key_mutation id b
mutation_of (dispatch_updates_done id b) = dispatch_updates_mutation id b
mutation_of (create_group_done id b) = create_group_mutation id b
mutation_of (dispatch_done id b c) = dispatch_mutation id b c
mutation_of (save_command_done id b c) = save_command_mutation id b c
mutation_of (bulk_done id b c) = bulk_mutation id b c
mutation_of (refresh_processes_done id) = refresh_processes_mutation id

-- The path of the request that a mutation sends.
unfoldable pub mutation_path : Mutation → List String
mutation_path m = (api_request (mutation_of m).call).path
