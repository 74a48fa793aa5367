-- ===== src/Sse/Backoff.antt =====
-- The waits between attempts that fail one after another.
use dtsys.Prelude.{ℕ, ◌≡◌, true, false, List, [], ◌∷◌}
use dtsys.Sse.{fetching, Conn, FetchReply, no_body, ReadReply, Reply, Permission, Event, settled}

abbrev pub fetch_reply : FetchReply → Reply
fetch_reply a = record { fetch = a; read = ReadReply.done; permission = Permission.missing }

-- A request that brings no stream, or that throws.
pub data IsFailure : FetchReply → Type 0 where
  without_body : IsFailure no_body
  thrown : IsFailure FetchReply.failed

-- The request fails, and its timer runs out.
abbrev pub failing : List FetchReply → List Event
failing [] = []
failing (a ∷ more) = settled 0 (fetch_reply a) ∷ settled 0 (fetch_reply a) ∷ failing more

abbrev pub AllFail : List FetchReply → Type 0
AllFail [] = Unit
AllFail (a ∷ more) = IsFailure a × AllFail more

-- The connection is about to be answered, with this wait to come.
record IsAsking (b : ℕ) (c : Conn) : Type 0 where
  mounted : c.mounted ≡ true
  aborted : c.aborted ≡ false
  backoff_ms : c.backoff_ms ≡ b
  tasks : c.tasks ≡ fetching ∷ []
