-- ===== src/Examples/ConfigExamples.antt =====
-- A run of the theorem on the configuration, in an empty environment.
use k8s_migration.Base.{◌≡◌, none, ok, Ensures}
use k8s_migration.Worker.Runner.{new_runner}
use k8s_migration.Config.Variables.{Source}
use k8s_migration.Config.Load.{load_worker}
use k8s_migration.Config.Started.{runner_config, load_worker-new_runner}

abbrev empty_source : Source
empty_source = record {
  getenv = λ _. "";
  parse_duration = λ _. none;
  parse_bool = λ _. none;
  atoi = λ _. none;
}

load_worker-new_runner_example :
    Ensures
      (λ w. new_runner (runner_config w "node-1" "4711") ≡ ok (runner_config w "node-1" "4711"))
      (load_worker empty_source)
load_worker-new_runner_example = load_worker-new_runner empty_source "node-1" "4711"
