-- ===== src/Platform.antt =====
-- What the orchestrator is given: Redis, the codecs, and the conversions between chrono's times
-- and scores. The settings it reads are those of rrq-rs/config/src/settings.rs.
use rrq.Prelude.{String}
use rrq.Prelude.Int.{ℤ}
use rrq.Redis.{Redis}
use rrq.Job.{Codec, Fields}

pub record Platform : Type 1 where
  pub redis : Redis
  pub open redis use *
  pub codec : Codec
  pub open codec use *
  -- `t.timestamp_millis() as f64` and `t.timestamp() as f64`.
  pub millis : codec.Time → redis.floats.F64
  pub seconds : codec.Time → redis.floats.F64
  -- `Utc.timestamp_millis_opt(score as i64).single().unwrap_or_else(Utc::now)`.
  pub time_at : redis.floats.F64 → codec.Time → codec.Time

-- The settings that the orchestrator's modelled parts read; a map is the list of its entries.
pub record RrqSettings (F64 : Type 0) : Type 0 where
  pub default_queue_name : String
  pub default_dlq_name : String
  pub default_max_retries : ℤ
  pub default_job_timeout_seconds : ℤ
  pub default_lock_timeout_extension_seconds : ℤ
  pub default_result_ttl_seconds : ℤ
  pub default_unique_job_lock_ttl_seconds : ℤ
  pub default_runner_name : String
  pub runner_routes : Fields
  pub base_retry_delay_seconds : F64
  pub max_retry_delay_seconds : F64
