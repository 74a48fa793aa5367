-- ===== src/Updates/Tests.antt =====
-- The theorems about the updates page at concrete inputs.
use dtsys.Prelude.{String, false, List, [], ◌∷◌, length}
use dtsys.Updates.{Text, PendingSoftwareUpdate, UpdatesPage}

abbrev lower : Text → Text
lower s = s

abbrev entry_of : Text → List String → PendingSoftwareUpdate
entry_of name ids = record {
  software_name = name;
  current_versions = [];
  affected_device_ids = ids;
  affected_count = length ids;
}

-- Two packages, the search for the first, and the third page.
abbrev table : UpdatesPage
table = record {
  pending = entry_of (97 ∷ []) ("one" ∷ "two" ∷ []) ∷ entry_of (98 ∷ []) ("two" ∷ []) ∷ [];
  selected = (97 ∷ []) ∷ [];
  expanded = [];
  search = [];
  page = 3;
  is_pending = false;
  dispatched = [];
}
