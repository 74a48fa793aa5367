-- ===== src/Api.antt =====
-- The requests of the console (frontend/src/api/*.ts) and the routes of the server that answer them.
-- A path is the list of its segments below /api/v1. The answers are left out. An id is neither empty
-- nor has it a slash, so it is one segment.
pub mod Accounts
pub mod Devices
pub mod Fleet
pub mod Pages
pub mod Mobile
pub mod Routes
pub mod Call
pub mod Handlers
pub mod Served
mod Tests
use dtsys.Prelude.{ℕ, String, Bool, true, false, List, [], ◌∷◌, Option, none, some, if◌then◌else◌}
use dtsys.Prelude.Storage.{is_truthy}

-- A JSON value, and the fields of an object.
mutual
  pub data Value : Type 0 where
    null : Value
    flag : Bool → Value
    number : ℕ → Value
    text : String → Value
    texts : List String → Value
    object : Fields → Value

  pub data Fields : Type 0 where
    no_fields : Fields
    field : String → Value → Fields → Fields

pub data Method : Type 0 where
  get post put patch delete : Method

-- `params` are the query; a request without a body has none.
pub record Request : Type 0 where
  pub method : Method
  pub path : List String
  pub params : Fields
  pub body : Option Value

abbrev pub plain : Method → List String → Request
plain m path = record { method = m; path = path; params = no_fields; body = none }

abbrev pub fetch : List String → Fields → Request
fetch path params = record { method = get; path = path; params = params; body = none }

abbrev pub submit : Method → List String → Value → Request
submit m path body = record { method = m; path = path; params = no_fields; body = some body }

-- `...(value ? { [name]: value } : {})`
abbrev pub when_truthy : String → Option String → Fields → Fields
when_truthy name none rest = rest
when_truthy name (some v) rest = if is_truthy (some v) then field name (text v) rest else rest
