-- ===== src/Examples/ReportExamples.antt =====
-- Runs of the theorem on the pages of events.
use k8s_migration.Base.{refl, [], ◌∷◌, ◌++◌, ◌≡◌, ok, arith, ℕ, String}
use k8s_migration.Migration.Model.{EventSeverity}
use k8s_migration.Store.Tables.Rows.{Db, Event}
use k8s_migration.RunService.Report.{collect_events}
use k8s_migration.RunService.Pages.{events_after, collect_events_complete}
use k8s_migration.Examples.Rows.{sample_db}

abbrev sample_event : ℕ → ℕ → String → Event
sample_event id run type = record {
  id = id;
  run_id = run;
  type = type;
  severity = EventSeverity.info;
  message = "";
  detail = [];
  created_at = 20;
}

-- Events of two runs.
abbrev eventful_db : Db
eventful_db = record sample_db {
  events =
      sample_event 1 5 "RUN_STARTED"
      ∷ sample_event 2 6 "RUN_STARTED"
      ∷ sample_event 4 5 "STEP_STARTED"
      ∷ [];
}

collect_events_complete_example :
    collect_events 3 eventful_db 5 0 [] ≡ ok ([] ++ events_after eventful_db 5 0)
collect_events_complete_example =
    collect_events_complete eventful_db 5
      ((omega arith, (omega arith, tt)), ((omega arith, tt), (tt, tt))) refl 3 0 [] (omega arith)
