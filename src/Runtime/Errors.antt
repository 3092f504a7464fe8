-- ===== src/Runtime/Errors.antt =====
-- `InvokeError` and `PublishError` of crates/core/src/error.rs, `Usage` of crates/core/src/meter.rs.
use warpline.Base.{ℕ, Option, none, some, bytes_eq, pair_eq}
use warpline.Types.Limits.{ConfigError}
use warpline.Registry.Disk.{IoError}
use warpline.Registry.Pointer.{Error, io}
use warpline.Sandbox.Budget.{WasmError}

pub record Usage : Type 0 where
  pub cpu_us : ℕ
  pub wall_us : ℕ
  pub mem_peak_bytes : ℕ

pub data InvokeError : Type 0 where
  invalid_name not_found overloaded tenant_busy : InvokeError
  invalid_limits : ConfigError → InvokeError
  cpu_budget_exceeded : Usage → (budget_ms : ℕ) → InvokeError
  memory_cap_exceeded : Usage → (cap_bytes : ℕ) → InvokeError
  wall_clock_timeout : Usage → InvokeError
  output_too_large : Usage → (limit : ℕ) → InvokeError
  guest_trap : Usage → WasmError → InvokeError
  load : Error → InvokeError

-- `InvokeError::usage`.
unfoldable pub usage_of : InvokeError → Option Usage
usage_of (cpu_budget_exceeded usage budget_ms) = some usage
usage_of (memory_cap_exceeded usage cap_bytes) = some usage
usage_of (wall_clock_timeout usage) = some usage
usage_of (output_too_large usage limit) = some usage
usage_of (guest_trap usage source) = some usage
usage_of invalid_name = none
usage_of not_found = none
usage_of overloaded = none
usage_of tenant_busy = none
usage_of (invalid_limits e) = none
usage_of (load e) = none

unfoldable pub http_status : InvokeError → ℕ
http_status invalid_name = 400
http_status (invalid_limits e) = 400
http_status not_found = 404
http_status overloaded = 503
http_status tenant_busy = 429
http_status (cpu_budget_exceeded usage budget_ms) = 408
http_status (wall_clock_timeout usage) = 408
http_status (memory_cap_exceeded usage cap_bytes) = 507
http_status (output_too_large usage limit) = 502
http_status (guest_trap usage source) = 500
http_status (load e) = 500

pub data PublishError : Type 0 where
  bad_publish_name : PublishError
  compile_failed : Error → PublishError
  import_mismatch : Error → PublishError
  publish_io : IoError → PublishError
  registry : Error → PublishError

unfoldable pub into_publish_err : Error → PublishError
into_publish_err (io e) = publish_io e
into_publish_err e = registry e
