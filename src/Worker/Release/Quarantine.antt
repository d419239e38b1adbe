-- ===== src/Worker/Release/Quarantine.antt =====
-- `quarantine_claimed_job_without_definition` of rrq-rs/orchestrator/src/worker.rs under failing
-- calls.
use rrq.Prelude.{
  String, Bool, true, false, Option, none, some, ◌≡◌, refl, is_some, inl, inr, arith, eq_refl,
  if◌then◌else◌, [], ◌∷◌, unwrap_or,
}
use rrq.Keys.{
  Key, job, queue, active, lock, unique, events, dlq, key_eq, format_queue_key, format_dlq_key,
}
use rrq.Redis.{zrem, expire, lpush, xadd, del}
use rrq.Redis.Calls.{World, Result, ok, err, attempt}
use rrq.Redis.Triples.{Triple, Keeps, Ends, Triple-pure, Triple-call, Triple-bind, Triple-attempt}
use rrq.Prelude.Int.{pos}
use rrq.Platform.{Platform, RrqSettings}
use rrq.Tracking.{NoLoss, NoLoss-step, live, status}
use rrq.Tracking.Rules.{about_rules}
use rrq.Tracking.Safe.{safe_rules}
use rrq.Scripts.{hset_all, failed_event}
use rrq.Store.{remove_job_from_queue, get_job_data_map, move_job_to_dlq, release_unique_job_lock}
use rrq.Worker.Outcome.Tracked.{Stored, Stored-safe}
use rrq.Worker.Outcome.Endings.{attempt-keeps, Triple-fails}
use rrq.Worker.Release.{
  is_other, release_unique_key, after_move, quarantine_read, quarantine_known,
  quarantine_claimed_job_without_definition, non_empty,
}
use rrq.Worker.Release.Ends.{ended}
use rrq.Worker.Release.Safe.{
  Mine, Claimed, Asked, Back, asked, cleanup_if-NoLoss, without-Back, Triple-from,
}

module _ (p : Platform) (settings : RrqSettings p.redis.floats.F64) (id worker_id : String) where
  open p use {redis, codec}
  open redis use {F64, Db, hget, get, zscore, exists, hget-write, zscore-write, hget-missing}
  open codec use {Time}

  unique-Stored :
      (key : Option String) → Keeps (Stored redis id) (release_unique_key p settings key)
  unfolding release_unique_job_lock
  unique-Stored none = Triple-pure tt (λ db s. s)
  unique-Stored (some key) =
      Triple-bind (λ _. Stored redis id) (attempt (release_unique_job_lock p key)) _
        (attempt-keeps p settings _ (
          Triple-call _ (λ db s. Stored-safe redis id (del (unique key)) db s tt) (λ db s. s)
            (λ db s. Stored-safe redis id (del (unique key)) db s tt)))
        (λ _. Triple-pure tt (λ db s. s))

  after_move-Back :
      (moved : Result (Unit {0})) (queue_name : String) (key : Option String) (now : Time)
      → Triple
          (Ends (λ _. Stored redis id) (Mine redis id worker_id) moved)
          (after_move p settings moved queue_name id key now)
          (Back p settings id worker_id)
          (NoLoss redis)
  after_move-Back (err e) queue_name key now = without-Back p settings id worker_id queue_name _ now
  after_move-Back (ok u) queue_name key now =
      Triple-bind (λ _. Stored redis id) (release_unique_key p settings key) _
        (Triple-fails p settings _ (unique-Stored key) (λ db s. s.no_loss))
        (λ _. Triple-pure true (λ db s. (s.no_loss, λ _. s)))

  abbrev moved_data : Key → String → String → Db → Db
  moved_data dlq_key message time db = redis.write (expire (events id) (pos 604800000)) (
      redis.write (expire (job id) (pos 604800000)) (
        redis.write (lpush dlq_key id) (
          redis.write (xadd (events id) (failed_event redis id)) (
            hset_all redis (job id)
              (("status", "FAILED") ∷ ("last_error", message) ∷ ("completion_time", time) ∷ [])
              db))))

  moved-NoLoss :
      (d : String) (message time : String) (db : Db)
      → NoLoss redis db
      → NoLoss redis (moved_data (dlq d) message time db)
  moved-NoLoss d message time db n = search (safe_rules, inl, inr, tt) depth 20

  moved-failed :
      (d : String) (message time : String) (db : Db)
      → live (status redis (moved_data (dlq d) message time db) id) ≡ false
  unfolding key_eq
  moved-failed d message time db = simp (hget-write, eq_refl)

  moved-Stored :
      (d : String) (message time : String) (db : Db)
      → NoLoss redis db
      → Stored redis id (moved_data (dlq d) message time db)
  unfolding key_eq
  moved-Stored d message time db n = record {
    no_loss = moved-NoLoss d message time db n;
    settled = λ alive. (let f = moved-failed d message time db in cc);
  }

  moved-Mine :
      (d : String) (message time : String) (db : Db)
      → Mine redis id worker_id db
      → Mine redis id worker_id (moved_data (dlq d) message time db)
  unfolding key_eq
  moved-Mine d message time db m = record {
    no_loss = moved-NoLoss d message time db m.no_loss;
    tracked = simp (zscore-write, m.tracked);
  }

  move-Stored :
      (dlq_name message : String) (now : Time)
      → Triple
          (Mine redis id worker_id)
          (move_job_to_dlq p id dlq_name message now)
          (λ _. Stored redis id)
          (Mine redis id worker_id)
  unfolding move_job_to_dlq format_dlq_key
  move-Stored dlq_name message now =
      Triple-call _ (λ db m. moved-Stored _ message _ db m.no_loss) (λ db m. m)
        (moved-Mine _ message _)

  -- A job without a hash has no status.
  gone-Stored : (db : Db) → NoLoss redis db → exists db (job id) ≡ false → Stored redis id db
  gone-Stored db n gone = record {
    no_loss = n;
    settled = λ alive. (let none_left = hget-missing db (job id) "status" gone in grind arith);
  }

  -- What was read of the hash.
  abbrev Read : Option (String → Option String) → Db → Type 0
  Read raw db = Mine redis id worker_id db × (raw ≡ none → Stored redis id db)

  get_job_data_map-Read :
      Triple (Mine redis id worker_id) (get_job_data_map p id) Read (Mine redis id worker_id)
  unfolding get_job_data_map
  get_job_data_map-Read =
      Triple-call _ (λ db m. (m, found db m (exists db (job id)) refl)) (λ db m. m) (λ db m. m)
    where
      found :
          (db : Db)
          → Mine redis id worker_id db
          → (b : Bool) → exists db (job id) ≡ b
          → (if b then some (hget db (job id)) else none) ≡ none
          → Stored redis id db
      found db m true there e = grind arith
      found db m false gone e = gone-Stored db m.no_loss gone

  quarantine_read-Back :
      (read : Result (Option (String → Option String))) (queue_name message : String) (now : Time)
      → Triple
          (Ends Read (Mine redis id worker_id) read)
          (quarantine_read p settings read queue_name id message now)
          (Back p settings id worker_id)
          (NoLoss redis)
  quarantine_read-Back (ok none) queue_name message now =
      Triple-pure true (λ db h. (h.0.no_loss, λ _. h.1 refl))
  quarantine_read-Back (ok (some raw)) queue_name message now =
      Triple-bind (Ends (λ _. Stored redis id) (Mine redis id worker_id))
        (attempt (
          move_job_to_dlq p id (unwrap_or (non_empty (raw "dlq_name")) settings.default_dlq_name)
            message now))
        _
        (Triple-attempt _
          (Triple-from p settings id worker_id _ (λ db h. h.0) (move-Stored _ message now)))
        (λ moved. after_move-Back moved queue_name (non_empty (raw "job_unique_key")) now)
  quarantine_read-Back (err e) queue_name message now =
      without-Back p settings id worker_id queue_name _ now

  unqueued_data :
      (q : String) (db : Db)
      → Mine redis id worker_id db
      → Mine redis id worker_id (redis.write (zrem (queue q) id) db)
  unfolding key_eq
  unqueued_data q db m = record {
    no_loss =
        NoLoss-step redis id db _ (search about_rules depth 20)
          (λ _. inr (worker_id, simp (zscore-write, m.tracked))) m.no_loss;
    tracked = simp (zscore-write, m.tracked);
  }

  unqueue-Mine :
      (queue_name : String)
      → Keeps (Mine redis id worker_id) (remove_job_from_queue p queue_name id)
  unfolding remove_job_from_queue format_queue_key
  unqueue-Mine queue_name = Triple-call _ (unqueued_data _) (λ db m. m) (unqueued_data _)

  quarantine_known-NoLoss :
      (other : Option Bool) (queue_name message : String) (now : Time)
      → Triple
          (Asked p settings id worker_id other)
          (quarantine_known p settings other queue_name id message worker_id now)
          (λ _. NoLoss redis)
          (NoLoss redis)
  quarantine_known-NoLoss none queue_name message now = Triple-pure tt (λ db h. h.0.no_loss)
  quarantine_known-NoLoss (some true) queue_name message now = record {
    at = λ x h. absurd (h.1 refl);
  }
  quarantine_known-NoLoss (some false) queue_name message now =
      Triple-bind (λ _. Mine redis id worker_id) (attempt (remove_job_from_queue p queue_name id)) _
        (Triple-from p settings id worker_id _ (λ db h. h.0)
          (attempt-keeps p settings _ (unqueue-Mine queue_name)))
        (λ _.
          Triple-bind (Ends Read (Mine redis id worker_id)) (attempt (get_job_data_map p id)) _
            (Triple-attempt _ get_job_data_map-Read)
            (λ read.
              Triple-bind (Back p settings id worker_id) _ _
                (quarantine_read-Back read queue_name message now)
                (cleanup_if-NoLoss p settings id worker_id)))

  quarantine-Triple :
      (queue_name message : String) (now : Time)
      → Triple
          (Claimed p settings id worker_id)
          (quarantine_claimed_job_without_definition p settings queue_name id message worker_id now)
          (λ _. NoLoss redis)
          (NoLoss redis)
  unfolding quarantine_claimed_job_without_definition
  quarantine-Triple queue_name message now =
      Triple-bind (Asked p settings id worker_id) _ _ (asked p settings id worker_id)
        (λ other. quarantine_known-NoLoss other queue_name message now)

  -- Whichever calls fail: quarantining a job that the worker runs and whose lock no other worker
  -- holds puts no job out of reach.
  pub quarantine-NoLoss :
      (queue_name message : String) (now : Time) (w : World redis)
      → NoLoss redis w.db
      → is_some (zscore w.db (active worker_id) id) ≡ true
      → is_other (get w.db (lock id)) worker_id ≡ false
      → NoLoss redis
          (quarantine_claimed_job_without_definition p settings queue_name id message worker_id now
            w).1.db
  quarantine-NoLoss queue_name message now w n tracked mine = ended p settings id worker_id _ _ (
      (quarantine-Triple queue_name message now).at w
        (record { no_loss = n; tracked = tracked }, mine))
