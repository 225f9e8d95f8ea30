-- ===== src/Panel/Flags.antt =====
-- What the panel shows as running, and the actions that leave nothing so.
use urwhaturead.Prelude.{ℕ, text_eq, ◌≡◌, Bool, false, Option, none}
use urwhaturead.Task.Summary.{answered}
use urwhaturead.Panel.{Panel, BulkSourceAction}
use urwhaturead.Panel.Action.{Action}

-- What is being done, as the panel shows it.
pub record Flags : Type 0 where
  pub busy_source_id : Option ℕ
  pub bulk_source_action : Option BulkSourceAction
  pub creating : Bool
  pub batch_creating : Bool
  pub discovering : Bool
  pub reclassifying : Bool
  pub exporting : Bool
  pub importing : Bool

abbrev pub flags : Panel → Flags
flags s = record {
  busy_source_id = s.busy_source_id;
  bulk_source_action = s.bulk_source_action;
  creating = s.creating_source;
  batch_creating = s.batch_creating_sources;
  discovering = s.discovering_sources;
  reclassifying = s.reclassifying_sources;
  exporting = s.exporting_sources;
  importing = s.importing_sources;
}

abbrev pub no_flags : Flags
no_flags = record {
  busy_source_id = none;
  bulk_source_action = none;
  creating = false;
  batch_creating = false;
  discovering = false;
  reclassifying = false;
  exporting = false;
  importing = false;
}

-- Nothing is being done.
abbrev pub IsIdle : Panel → Type 0
IsIdle s = flags s ≡ no_flags

-- An action that returns, and leaves nothing marked.
abbrev pub Settles : Action (Unit {0}) → Type 0
Settles m = (s : Panel) → IsIdle s → ((m s).0 ≡ answered tt) × IsIdle (m s).1
