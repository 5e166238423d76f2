-- ===== src/Config/Started.antt =====
-- cmd/worker/main.go: the runner of a worker whose configuration has been loaded.
use Prim.Native.String.append
use Prim.Native.Char.{Char}
use k8s_migration.Base.{
  ℕ, ◌≡◌, refl, ap, eq_iff, String, Bool, true, false, not, ◌==◌, ltb, leb, str_eq, ◌+++◌,
  if◌then◌else◌, arith, Option, trim_space, Error, Result, ok, err, Ensures, Ensures-mono, succeeds,
  fails, require-Ensures, or_fail-Ensures, bind-Ensures, Bool-cases, inl, inr,
}
use k8s_migration.Worker.Runner.{Config, new_runner}
use k8s_migration.Config.Variables.{
  Source, require_positive, duration_env, log_level_env, positive_int_env, bool_env,
}
use k8s_migration.Config.Load.{Worker, pinned_env, load_worker}

-- What the program passes to `NewRunner`: the name of the host, and the text of a fresh UUID.
unfoldable pub runner_config : Worker → String → String → Config
runner_config w hostname uuid = record {
  owner_id = hostname +++ ("-" +++ uuid);
  poll_interval = w.poll_interval;
  heartbeat_interval = w.heartbeat_interval;
  lease_duration = w.lease_duration;
  retry_delay = w.retry_delay;
  max_attempts = 5;
}

if-Ensures {ℓ κ} :
    {A : Type ℓ} {P : A → Type κ} (b : Bool) {x y : Result A}
    → Ensures P x
    → Ensures P y
    → Ensures P (if b then x else y)
if-Ensures true p q = p
if-Ensures false p q = q

require_positive-Ensures :
    (parsed : Option ℕ) (problem : Error)
    → Ensures (λ value. ltb 0 value ≡ true) (require_positive parsed problem)
require_positive-Ensures parsed problem =
    or_fail-Ensures parsed problem
      (λ value _. require-Ensures (ltb 0 value) problem (λ positive. succeeds positive))

is_zero : (n : ℕ) → ltb 0 n ≡ true → (n == 0) ≡ false
is_zero n h = ground arith

duration_env-positive :
    (source : Source) (name : String) (fallback : ℕ)
    → ltb 0 fallback ≡ true
    → Ensures (λ value. ltb 0 value ≡ true) (duration_env source name fallback)
unfolding duration_env
duration_env-positive source name fallback h =
    if-Ensures (str_eq (trim_space (source.getenv name)) "") (succeeds h)
      (require_positive-Ensures (source.parse_duration (trim_space (source.getenv name))) _)

-- The intervals are positive, and the lease is longer than the time between two heartbeats.
record IsTimed (w : Worker) : Type 0 where
  pub poll : ltb 0 w.poll_interval ≡ true
  pub heartbeat : ltb 0 w.heartbeat_interval ≡ true
  pub lease : ltb 0 w.lease_duration ≡ true
  pub retry : ltb 0 w.retry_delay ≡ true
  pub renewed : not (leb w.lease_duration w.heartbeat_interval) ≡ true

any-Ensures {ℓ} : {A : Type ℓ} (r : Result A) → Ensures (λ _. Unit {0}) r
any-Ensures (ok a) = succeeds tt
any-Ensures (err e) = fails

load_worker-IsTimed : (source : Source) → Ensures IsTimed (load_worker source)
unfolding load_worker
load_worker-IsTimed source =
    bind-Ensures (duration_env source "WORKER_HEARTBEAT_INTERVAL" 10000)
      (duration_env-positive source "WORKER_HEARTBEAT_INTERVAL" 10000 refl)
      (λ heartbeat h.
        bind-Ensures (log_level_env source) (any-Ensures (log_level_env source)) (λ level _.
          bind-Ensures (duration_env source "WORKER_POLL_INTERVAL" 2000)
            (duration_env-positive source "WORKER_POLL_INTERVAL" 2000 refl)
            (λ poll p.
              bind-Ensures (duration_env source "WORKER_LEASE_DURATION" 30000)
                (duration_env-positive source "WORKER_LEASE_DURATION" 30000 refl)
                (λ lease l.
                  bind-Ensures (duration_env source "WORKER_RETRY_DELAY" 10000)
                    (duration_env-positive source "WORKER_RETRY_DELAY" 10000 refl)
                    (λ retry r. require-Ensures (not (leb lease heartbeat)) _ (λ renewed.
                      bind-Ensures (positive_int_env source "CREDENTIAL_KEY_VERSION" 1)
                        (any-Ensures _)
                        (λ _ _.
                          bind-Ensures (bool_env source "COMPOSE_HARBOR_INSECURE" false)
                            (any-Ensures _)
                            (λ _ _.
                              bind-Ensures (pinned_env source "STAGING_HELPER_IMAGE" _ _)
                                (any-Ensures _)
                                (λ _ _.
                                  bind-Ensures (pinned_env source "KOMPOSE_IMAGE" _ _)
                                    (any-Ensures _)
                                    (λ _ _.
                                      bind-Ensures (pinned_env source "KOPIA_IMAGE" _ _)
                                        (any-Ensures _)
                                        (λ _ _. succeeds (record {
                                          poll = p;
                                          heartbeat = h;
                                          lease = l;
                                          retry = r;
                                          renewed = renewed;
                                        }))))))))))))

abbrev is_blank : String → Bool
is_blank String.[] = true
is_blank (String.◌∷◌ c s) = false

cons_nonempty : (c : Char) (s : String) → str_eq (String.◌∷◌ c s) "" ≡ false
cons_nonempty c s = elim (Bool-cases (str_eq (String.◌∷◌ c s) "")) [
  | inl e ↦ absurd (ground (arith, ap is_blank ((eq_iff (String.◌∷◌ c s) "").0 e)))
  | inr e ↦ e
]

owner_nonempty : (hostname uuid : String) → str_eq (hostname +++ ("-" +++ uuid)) "" ≡ false
owner_nonempty String.[] uuid =
    rw (append.nil ("-" +++ uuid), append.cons "-" "" uuid) (cons_nonempty "-" ("" +++ uuid))
owner_nonempty (String.◌∷◌ c s) uuid =
    rw (append.cons c s ("-" +++ uuid)) (cons_nonempty c (s +++ ("-" +++ uuid)))

-- A worker whose configuration has been loaded starts: the runner accepts the intervals, whatever the
-- name of the host.
pub load_worker-new_runner :
    (source : Source) (hostname uuid : String)
    → Ensures
        (λ w. new_runner (runner_config w hostname uuid) ≡ ok (runner_config w hostname uuid))
        (load_worker source)
unfolding new_runner runner_config
load_worker-new_runner source hostname uuid =
    Ensures-mono
      (λ w timed.
        rw
          (
            owner_nonempty hostname uuid,
            is_zero w.poll_interval timed.poll,
            is_zero w.heartbeat_interval timed.heartbeat,
            is_zero w.lease_duration timed.lease,
            is_zero w.retry_delay timed.retry,
            timed.renewed,
          )
          refl)
      (load_worker-IsTimed source)
