-- ===== src/Config/Variables.antt =====
-- internal/config/config.go: the readers of one variable each. `getenv` is `os.Getenv`, `parse_duration`
-- is `time.ParseDuration` with 0 for what is not positive, `parse_bool` is `strconv.ParseBool`, and
-- `atoi` is `strconv.Atoi` with 0 for a negative number. Durations are milliseconds.
use k8s_migration.Base.{
  ℕ, String, Bool, ◌||◌, ltb, str_eq, ◌+++◌, equal_fold, trim_space, Option, if◌then◌else◌, Error,
  Result, ok, err, failure, require, or_fail, ◌>>=◌, ◌>>◌,
}

pub record Source : Type 0 where
  pub getenv : String → String
  pub parse_duration : String → Option ℕ
  pub parse_bool : String → Option Bool
  pub atoi : String → Option ℕ

pub data Level : Type 0 where
  debug info warn error : Level

abbrev pub require_positive : Option ℕ → Error → Result ℕ
require_positive parsed problem = do
  value ← or_fail parsed problem
  require (ltb 0 value) problem
  ok value

unfoldable pub duration_env : Source → String → ℕ → Result ℕ
unfolding trim_space
duration_env source name fallback =
    let raw = trim_space (source.getenv name) in
    if str_eq raw ""
    then ok fallback
    else require_positive (source.parse_duration raw)
        (failure (name +++ " must be a positive duration"))

unfoldable pub string_env : Source → String → String → String
unfolding trim_space
string_env source name fallback =
    let value = trim_space (source.getenv name) in if str_eq value "" then fallback else value

-- The lower case of the text is compared.
unfoldable pub log_level_env : Source → Result Level
unfolding string_env equal_fold
log_level_env source =
    let text = string_env source "LOG_LEVEL" "info" in
    if equal_fold text "debug"
    then ok Level.debug
    else if equal_fold text "info"
    then ok Level.info
    else if equal_fold text "warn" || equal_fold text "warning"
    then ok Level.warn
    else if equal_fold text "error"
    then ok Level.error
    else err (failure "LOG_LEVEL must be debug, info, warn, or error")

unfoldable pub bool_env : Source → String → Bool → Result Bool
unfolding trim_space
bool_env source name fallback =
    let raw = trim_space (source.getenv name) in
    if str_eq raw ""
    then ok fallback
    else or_fail (source.parse_bool raw) (failure (name +++ " must be true or false"))

unfoldable pub positive_int_env : Source → String → ℕ → Result ℕ
unfolding trim_space
positive_int_env source name fallback =
    let raw = trim_space (source.getenv name) in
    if str_eq raw ""
    then ok fallback
    else require_positive (source.atoi raw) (failure (name +++ " must be a positive integer"))
