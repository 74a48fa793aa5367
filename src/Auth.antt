-- ===== src/Auth.antt =====
-- The session of the web client: the auth store with the items that it keeps in `localStorage`
-- (frontend/src/store/authStore.ts).
pub mod Persistence
pub mod Web
pub mod Mobile
pub mod SignIn
mod Tests
use dtsys.Prelude.{String, Bool, true, false, List, [], Option, none, some, if◌then◌else◌}
use dtsys.Prelude.Storage.{Storage, get_item, set_item, remove_item, is_truthy}

pub record AuthState : Type 0 where
  pub access_token : Option String
  pub refresh_token : Option String
  pub username : Option String
  pub role : Option String
  pub org_id : Option String
  pub org_name : Option String
  pub is_authenticated : Bool

pub record Session : Type 0 where
  pub state : AuthState
  pub storage : Storage

-- The store as a page load creates it.
unfoldable pub load : Storage → AuthState
load storage = record {
  access_token = get_item "access_token" storage;
  refresh_token = get_item "refresh_token" storage;
  username = get_item "username" storage;
  role = get_item "role" storage;
  org_id = get_item "org_id" storage;
  org_name = get_item "org_name" storage;
  is_authenticated = is_truthy (get_item "access_token" storage);
}

-- `if (value) localStorage.setItem(key, value)`.
abbrev pub set_if_truthy : String → Option String → Storage → Storage
set_if_truthy k none storage = storage
set_if_truthy k (some v) storage = if is_truthy (some v) then set_item k v storage else storage

pub record Login : Type 0 where
  pub access_token : String
  pub refresh_token : String
  pub username : String
  pub role : String
  pub org_id : Option String
  pub org_name : Option String

unfoldable pub login : Login → Session → Session
login l s = record {
  state = record {
    access_token = some l.access_token;
    refresh_token = some l.refresh_token;
    username = some l.username;
    role = some l.role;
    org_id = l.org_id;
    org_name = l.org_name;
    is_authenticated = true;
  };
  storage = set_if_truthy "org_name" l.org_name (
      set_if_truthy "org_id" l.org_id (
        set_item "role" l.role (
          set_item "username" l.username (
            set_item "refresh_token" l.refresh_token
              (set_item "access_token" l.access_token s.storage)))));
}

unfoldable pub logout : Session → Session
logout s = record {
  state = record {
    access_token = none;
    refresh_token = none;
    username = none;
    role = none;
    org_id = none;
    org_name = none;
    is_authenticated = false;
  };
  storage = remove_item "org_name" (
      remove_item "org_id" (
        remove_item "role" (
          remove_item "username"
            (remove_item "refresh_token" (remove_item "access_token" s.storage)))));
}

pub record OrgContext : Type 0 where
  pub org_id : String
  pub org_name : String
  pub access_token : String
  pub refresh_token : String

unfoldable pub set_org_context : OrgContext → Session → Session
set_org_context o s =
    let state = s.state in
    record {
      state = record state {
        org_id = some o.org_id;
        org_name = some o.org_name;
        access_token = some o.access_token;
        refresh_token = some o.refresh_token;
      };
      storage = set_item "refresh_token" o.refresh_token (
          set_item "access_token" o.access_token
            (set_item "org_name" o.org_name (set_item "org_id" o.org_id s.storage)));
    }

pub data Call : Type 0 where
  log_in : Login → Call
  log_out : Call
  switch_org : OrgContext → Call

unfoldable pub apply : Call → Session → Session
apply (log_in l) = login l
apply log_out = logout
apply (switch_org o) = set_org_context o

unfoldable pub run : List Call → Session → Session
run [] s = s
run (List.◌∷◌ c cs) s = run cs (apply c s)
