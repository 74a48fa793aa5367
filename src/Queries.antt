-- ===== src/Queries.antt =====
-- The console's queries and mutations (React Query): the keys under which the answers are kept, the
-- requests that fill them, and the keys that a mutation marks as stale. React Query itself stands
-- outside: that it marks every key which begins with the given one is a hypothesis.
pub mod Fleet
pub mod Accounts
pub mod Panels
pub mod Reads
pub mod Writes
pub mod Commands
pub mod Resources
pub mod Paths
pub mod Changes
pub mod Keys
pub mod Named
pub mod Shared
pub mod Refresh
mod Tests
use dtsys.Prelude.{ℕ, String, Bool, List, Option, none, some}
use dtsys.Api.{Fields}
use dtsys.Api.Call.{ApiCall}

-- A part of a query's key.
pub data Part : Type 0 where
  word : String → Part
  count : ℕ → Part
  switch : Bool → Part
  shape : Fields → Part
  absent : Part

abbrev pub Key : Type 0
Key = List Part

-- The options of one `useQuery`: key, request, `enabled`, and the milliseconds of `refetchInterval`.
pub record QueryUse : Type 0 where
  pub key : Key
  pub call : ApiCall
  pub enabled : Bool
  pub refetch_interval : Option ℕ

-- The request of one `useMutation`, and the keys that it marks as stale when it is answered.
pub record MutationUse : Type 0 where
  pub call : ApiCall
  pub stale : List Key

abbrev pub text_part : Option String → Part
text_part none = absent
text_part (some s) = word s

abbrev pub shape_of : Option Fields → Part
shape_of none = absent
shape_of (some params) = shape params
