-- ===== src/Commands.antt =====
-- Sending commands from the console: the bar for several devices
-- (frontend/src/components/device/BulkCommandBar.tsx) and the panel of one device
-- (frontend/src/components/device/CommandPanel.tsx).
pub mod Bulk
pub mod Panel
mod Tests
use dtsys.Prelude.{ℕ, String, List, Option}
use dtsys.Prelude.Text.{Text}

-- What is sent beside the type: nothing, the text of a shell command, or the fields of a saved one.
pub data Payload : Type 0 where
  empty : Payload
  shell_text : Text → Payload
  saved_fields : String → Payload
  target_time : ℕ → Payload
