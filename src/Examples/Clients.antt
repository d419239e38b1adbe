-- ===== src/Examples/Clients.antt =====
-- The theorem on the client's enqueue at concrete data.
use rrq.Prelude.{none, some, [], ◌∷◌}
use rrq.Prelude.Int.{ℤ, pos, negsuc, ◌-ℤ◌, ◌+ℤ◌}
use rrq.Redis.Log.{log_redis}
use rrq.Redis.Calls.{World, served, lost_reply}
use rrq.Redis.Triples.{Ends}
use rrq.Tracking.{NoLoss}
use rrq.Client.{ClientEnvironment, Options, enqueue}
use rrq.Client.Queued.{Placed, enqueue-queued}
use rrq.Examples.Data.{sample_platform, sample_settings, queued, queued-NoLoss}

abbrev pub sample_client : ClientEnvironment sample_platform
sample_client = record {
  Duration = ℤ;
  num_seconds = λ d. d;
  add_duration = λ t d. t +ℤ d;
  add_seconds = λ t s. t +ℤ s;
  seconds_since = λ a b. a -ℤ b;
  later = λ a b. a;
  ttl = λ db k. negsuc 1;
  inject_trace_context = λ c. c;
  correlate = λ params c. none;
}

abbrev sample_options : Options sample_platform sample_client sample_settings
sample_options = record {
  queue_name = none;
  job_id = none;
  unique_key = some "u";
  max_retries = none;
  job_timeout_seconds = none;
  defer_until = none;
  defer_by = some (pos 60);
  result_ttl_seconds = none;
  trace_context = none;
}

-- The TTL is read, the unique lock is taken, and the reply to the script is lost.
abbrev unlucky : World log_redis
unlucky = record {
  db = queued;
  faults = served ∷ served ∷ lost_reply ∷ [];
  running = [];
  aborts = [];
}

enqueue-queued_example :
    Ends
      (Placed sample_platform sample_client sample_settings)
      (NoLoss log_redis)
      (enqueue sample_platform sample_client sample_settings "handler" tt sample_options "n"
        (pos 7)
        unlucky).0
      (enqueue sample_platform sample_client sample_settings "handler" tt sample_options "n"
        (pos 7)
        unlucky).1.db
enqueue-queued_example =
    enqueue-queued sample_platform sample_client sample_settings "handler" tt sample_options "n"
      (pos 7) unlucky queued-NoLoss
