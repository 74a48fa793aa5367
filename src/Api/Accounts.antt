-- ===== src/Api/Accounts.antt =====
-- The requests about users, sessions and organisations: frontend/src/api/{admin,auth,organizations}.ts
-- and agent.ts.
use dtsys.Prelude.{get_or, String, [], ◌∷◌, Option}
use dtsys.Api.{
  Value, text, Fields, no_fields, field, object, get, post, patch, delete, Request, plain, fetch,
  submit,
}

pub data AdminCall : Type 0 where
  users auth_config connections storage_stats cleanup : AdminCall
  create_user : Value → AdminCall
  update_user : String → Value → AdminCall
  reset_user_password : String → String → AdminCall
  delete_user : String → AdminCall
  audit_log audit_log_page : Fields → AdminCall

unfoldable pub admin_request : AdminCall → Request
admin_request users = plain get ("admin" ∷ "users" ∷ [])
admin_request (create_user body) = submit post ("admin" ∷ "users" ∷ []) body
admin_request (update_user id body) = submit patch ("admin" ∷ "users" ∷ id ∷ []) body
admin_request (reset_user_password id password) =
    submit patch ("admin" ∷ "users" ∷ id ∷ "password" ∷ [])
      (object (field "password" (text password) no_fields))
admin_request (delete_user id) = plain delete ("admin" ∷ "users" ∷ id ∷ [])
admin_request (audit_log params) = fetch ("admin" ∷ "audit-log" ∷ []) params
admin_request (audit_log_page params) = fetch ("admin" ∷ "audit-log" ∷ []) params
admin_request auth_config = plain get ("admin" ∷ "auth-config" ∷ [])
admin_request connections = plain get ("admin" ∷ "connections" ∷ [])
admin_request storage_stats = plain get ("admin" ∷ "storage-stats" ∷ [])
admin_request cleanup = plain post ("admin" ∷ "cleanup" ∷ [])

pub data AuthCall : Type 0 where
  login : String → String → AuthCall
  refresh : String → AuthCall

unfoldable pub auth_request : AuthCall → Request
auth_request (login username password) =
    submit post ("auth" ∷ "login" ∷ [])
      (object (field "username" (text username) (field "password" (text password) no_fields)))
auth_request (refresh refresh_token) =
    submit post ("auth" ∷ "refresh" ∷ [])
      (object (field "refresh_token" (text refresh_token) no_fields))

pub data OrgCall : Type 0 where
  list : OrgCall
  create : Value → OrgCall
  update : String → Value → OrgCall
  remove list_members switch : String → OrgCall
  invite_member : String → Value → OrgCall
  remove_member : String → String → OrgCall
  update_member : String → String → Value → OrgCall

unfoldable pub org_request : OrgCall → Request
org_request list = plain get ("organizations" ∷ [])
org_request (create body) = submit post ("organizations" ∷ []) body
org_request (update org_id body) = submit patch ("organizations" ∷ org_id ∷ []) body
org_request (remove org_id) = plain delete ("organizations" ∷ org_id ∷ [])
org_request (list_members org_id) = plain get ("organizations" ∷ org_id ∷ "members" ∷ [])
org_request (invite_member org_id body) =
    submit post ("organizations" ∷ org_id ∷ "members" ∷ []) body
org_request (remove_member org_id user_id) =
    plain delete ("organizations" ∷ org_id ∷ "members" ∷ user_id ∷ [])
org_request (update_member org_id user_id body) =
    submit patch ("organizations" ∷ org_id ∷ "members" ∷ user_id ∷ []) body
org_request (switch org_id) = plain post ("organizations" ∷ org_id ∷ "switch" ∷ [])

-- `agentApi.version`
unfoldable pub agent_version_request : Option String → Option String → Request
agent_version_request platform arch = fetch ("agent" ∷ "version" ∷ []) (
    field "platform" (text (get_or platform "linux"))
      (field "arch" (text (get_or arch "amd64")) no_fields))
