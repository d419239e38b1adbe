-- ===== src/Redis/Calls.antt =====
-- One process's calls of Redis. A call may fail: the request is lost and the server does nothing,
-- the reply is lost and the server has done its part, or the server refuses the type of the key.
-- Which calls fail is the environment's choice, a list that every theorem quantifies over.
use rrq.Prelude.{String, Option, List, [], ◌∷◌}
use rrq.Redis.{Redis}

pub data Fault : Type 0 where
  served lost_request lost_reply wrong_type : Fault

pub data Error : Type 0 where
  redis_error : Error
  wrongtype_error : Error
  invalid : String → Error

pub data Result {ℓ} (A : Type ℓ) : Type ℓ where
  ok : A → Result A
  err : Error → Result A

-- `RunningJobInfo` of rrq-rs/orchestrator/src/worker.rs.
pub record RunningJobInfo : Type 0 where
  pub queue_name : String
  pub runner_name : Option String
  pub request_id : Option String

-- The server's data, the faults to come, and the worker's tables of running jobs and of their
-- abort handles (by job id).
pub record World (r : Redis) : Type 0 where
  pub db : r.Db
  pub faults : List Fault
  pub running : List (String × RunningJobInfo)
  pub aborts : List String

abbrev pub Io : Redis → Type 0 → Type 0
Io r A = World r → Result A × World r

module _ {r : Redis} {A B : Type 0} where
  abbrev pub bind_result : Result A × World r → (A → Io r B) → Result B × World r
  bind_result (ok a, w) f = f a w
  bind_result (err e, w) f = (err e, w)

  infixl 10 ◌>>=◌ ◌>>◌
  -- `m?`, and then the rest.
  abbrev pub ◌>>=◌ : Io r A → (A → Io r B) → Io r B
  ◌>>=◌ m f w = bind_result (m w) f

  abbrev pub ◌>>◌ : Io r A → Io r B → Io r B
  ◌>>◌ m k w = bind_result (m w) (λ _. k)

module _ {r : Redis} {A : Type 0} where
  abbrev pub pure : A → Io r A
  pure a w = (ok a, w)

  abbrev pub fail : Error → Io r A
  fail e w = (err e, w)

  abbrev pub wrap : Result A × World r → Result (Result A) × World r
  wrap (res, w) = (ok res, w)

  -- The result as a value, for code that matches on it or drops it.
  abbrev pub attempt : Io r A → Io r (Result A)
  attempt m w = wrap (m w)

  -- Whether the next call is served, and with what it is answered otherwise.
  abbrev pub served_by : Fault → (r.Db → A × r.Db) → World r → List Fault → Result A × World r
  served_by served f w rest = (ok (f w.db).0, record w { db = (f w.db).1; faults = rest })
  served_by lost_request f w rest = (err redis_error, record w { faults = rest })
  served_by lost_reply f w rest = (err redis_error, record w { db = (f w.db).1; faults = rest })
  served_by wrong_type f w rest = (err wrongtype_error, record w { faults = rest })

  abbrev pub next_fault : List Fault → (r.Db → A × r.Db) → World r → Result A × World r
  next_fault [] f w = served_by served f w []
  next_fault (x ∷ xs) f w = served_by x f w xs

  -- One call: the server answers, and its data change, in one step.
  unfoldable pub call : (r.Db → A × r.Db) → Io r A
  call f w = next_fault w.faults f w
