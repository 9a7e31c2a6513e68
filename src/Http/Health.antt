-- ===== src/Http/Health.antt =====
-- platform/health/health.go: the health check. The ping of the database, the memory that the runtime
-- reports and the environment are arguments; times, the number of goroutines and the sizes that are
-- only printed are left out.
use chat_gateway.Prelude.{ℕ, ◌*◌, ◌/◌, Option, none, some, [], ltb, if◌then◌else◌}
use chat_gateway.Prelude.Text.{Text, bytes, text_eq}
use chat_gateway.Http.Errors.{HealthReport, health_data, Outcome, answer, panic}
use chat_gateway.Http.Setup.{Config}

pub record Probe : Type 0 where
  -- The error of `checkDatabase`, if there is one.
  pub database : Option Text
  -- `runtime.MemStats.Sys`, in bytes
  pub memory : ℕ
  pub app_version : Text

abbrev memory_mb : ℕ
memory_mb = 1024 * 1024

-- The status of `checkSystemResources`.
unfoldable pub check_system_resources : ℕ → Text
check_system_resources memory =
    if ltb 1024 (memory / memory_mb) then bytes "warning" else bytes "healthy"

abbrev version_of : Text → Text
version_of version = if text_eq version [] then bytes "NO_VERSION_SET" else version

unfoldable pub health_report : Config → Probe → Option Text → HealthReport
unfolding check_system_resources
health_report cfg probe none = record {
  status = bytes "healthy";
  app_name = cfg.app_name;
  version = version_of probe.app_version;
  debug = cfg.debug;
  database_status = bytes "healthy";
  database_error = [];
  database_name = some cfg.database_name;
  system_status = check_system_resources probe.memory;
}
health_report cfg probe (some error) = record {
  status = bytes "degraded";
  app_name = cfg.app_name;
  version = version_of probe.app_version;
  debug = cfg.debug;
  database_status = bytes "unhealthy";
  database_error = error;
  database_name = none;
  system_status = check_system_resources probe.memory;
}

-- Without a configuration, `cfg.App` is a nil dereference.
unfoldable pub health_check : Option Config → Probe → Outcome
unfolding health_report
health_check none probe = panic
health_check (some cfg) probe = answer 200 (health_data (health_report cfg probe probe.database))
