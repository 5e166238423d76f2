-- ===== src/RunService/Report.antt =====
-- internal/migration/run_service.go: `reportSummary`, and the pages of events of `Report`.
use k8s_migration.Base.{
  ℕ, zero, suc, ◌+◌, ◌-◌, ◌/◌, Bool, false, ◌||◌, Option, none, some, List, [], ◌∷◌, ◌++◌, ltb,
  str_eq, if◌then◌else◌, length, Result, ok, err, failure, ◌>>=◌,
}
use k8s_migration.Migration.Model.{Run, RunStatus, Step, StepStatus, EventSeverity}
use k8s_migration.Store.Tables.Rows.{Db, Event}
use k8s_migration.Store.Runs.Records.{list_events}

pub record ReportSummary : Type 0 where
  pub result : RunStatus
  pub duration_seconds : ℕ
  pub step_count : ℕ
  pub completed_step_count : ℕ
  pub failed_step_count : ℕ
  pub warning_count : ℕ
  pub error_count : ℕ
  pub bytes_transferred : ℕ
  pub average_bytes_per_second : ℕ
  pub cutover_confirmed : Bool
  pub source_rollback_was_invoked : Bool

count_step : StepStatus → ReportSummary → ReportSummary
count_step StepStatus.succeeded s = record s { completed_step_count = s.completed_step_count + 1 }
count_step StepStatus.skipped s = record s { completed_step_count = s.completed_step_count + 1 }
count_step StepStatus.failed s = record s { failed_step_count = s.failed_step_count + 1 }
count_step _ s = s

unfoldable pub count_steps : List Step → ReportSummary → ReportSummary
unfolding count_step
count_steps [] s = s
count_steps (step ∷ steps) s = count_steps steps (count_step step.status s)

count_severity : EventSeverity → ReportSummary → ReportSummary
count_severity EventSeverity.warning s = record s { warning_count = s.warning_count + 1 }
count_severity EventSeverity.error s = record s { error_count = s.error_count + 1 }
count_severity EventSeverity.info s = s

count_event : Event → ReportSummary → ReportSummary
unfolding count_severity
count_event e s =
    let counted = count_severity e.severity s in
    record counted {
      cutover_confirmed = counted.cutover_confirmed || str_eq e.type "CUTOVER_CONFIRMED";
      source_rollback_was_invoked =
          counted.source_rollback_was_invoked
          || (str_eq e.type "SOURCE_ROLLBACK_COMPLETED"
              || str_eq e.type "COMPOSE_SOURCE_RESTARTED");
    }

unfoldable pub count_events : List Event → ReportSummary → ReportSummary
unfolding count_event
count_events [] s = s
count_events (e ∷ es) s = count_events es (count_event e s)

-- Times are milliseconds. The average is left at 0 where no whole second has passed.
abbrev measure : ℕ → ℕ → ReportSummary → ReportSummary
measure started ended s =
    if ltb started ended
    then (let seconds = (ended - started) / 1000 in
        record s {
          duration_seconds = seconds;
          average_bytes_per_second =
              if ltb 0 seconds then s.bytes_transferred / seconds else s.average_bytes_per_second;
        })
    else s

abbrev ended_at : Option ℕ → ℕ → ℕ
ended_at none generated = generated
ended_at (some t) generated = t

abbrev timed : Option ℕ → ℕ → ReportSummary → ReportSummary
timed none ended s = s
timed (some started) ended s = measure started ended s

unfoldable pub report_summary : Run → List Step → List Event → ℕ → ReportSummary
unfolding count_steps count_events
report_summary run steps events generated =
    let empty : ReportSummary = record {
      result = run.status;
      duration_seconds = 0;
      step_count = length steps;
      completed_step_count = 0;
      failed_step_count = 0;
      warning_count = 0;
      error_count = 0;
      bytes_transferred = run.bytes_transferred;
      average_bytes_per_second = 0;
      cutover_confirmed = false;
      source_rollback_was_invoked = false;
    } in
    timed run.started_at (ended_at run.completed_at generated)
      (count_events events (count_steps steps empty))

abbrev pub last_id : ℕ → List Event → ℕ
last_id after [] = after
last_id after (e ∷ es) = last_id e.id es

-- The loop over pages of 500 events. Each page starts behind the last event of the one before.
unfoldable pub collect_events : ℕ → Db → ℕ → ℕ → List Event → Result (List Event)
collect_events zero db run after events = err (failure "fuel")
collect_events (suc fuel) db run after events = do
  batch ← list_events db run after 500
  let rest = collect_events fuel db run (last_id after batch) (events ++ batch)
  if ltb (length batch) 500 then ok (events ++ batch) else rest
