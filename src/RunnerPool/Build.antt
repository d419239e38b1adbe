-- ===== src/RunnerPool/Build.antt =====
-- `build_runners_from_settings_filtered` of rrq-rs/orchestrator/src/runner.rs: the pools of the
-- configured runners that are needed. A map of the settings is the list of its entries, in the order
-- in which it is iterated. The texts of ports are the standard library's. The parts of a runner that
-- only its processes and calls read (environment, directory, timeouts, hints) are left out.
pub mod Needed
use Prim.Native.String.{len, slice, ◌++◌}
use text.Mathlib.Text.{starts_with, find?}
use rrq.Prelude.{
  ℕ, ◌-◌, String, Bool, true, false, ◌&&◌, not, Option, none, some, List, [], ◌∷◌, ◌==◌, is_some,
  if◌then◌else◌, unwrap_or,
}
use rrq.Config.TcpSocket.{Network}
use rrq.RunnerPool.{SocketRunnerPool, Trial}
use rrq.RunnerPool.Start.{
  NewPool, StartError, started, rejected, closed, is_external_mode, new_pool,
}

-- The fields of a runner's configuration that are read.
pub record RunnerEntry : Type 0 where
  pub cmd : Option (List String)
  pub tcp_host : Option String
  pub tcp_port : Option ℕ
  pub allowed_hosts : Option (List String)

pub data BuildError : Type 0 where
  missing_pool_size missing_max_in_flight empty_cmd missing_tcp_port pool_closed : BuildError
  pool_rejected : StartError → BuildError

-- What the loop does for a runner.
pub data BuildStep (IpAddr : Type 0) : Type 0 where
  skipped : BuildStep IpAddr
  made : IpAddr → SocketRunnerPool → BuildStep IpAddr
  failed : BuildError → BuildStep IpAddr

pub data Runners (IpAddr : Type 0) : Type 0 where
  built : List (String × IpAddr × SocketRunnerPool) → Runners IpAddr
  unbuilt : BuildError → Runners IpAddr

abbrev pub number_of : List (String × ℕ) → String → Option ℕ
number_of [] name = none
number_of ((k, n) ∷ rest) name = if k == name then some n else number_of rest name

abbrev pub contains_name : List String → String → Bool
contains_name [] name = false
contains_name (k ∷ rest) name = if k == name then true else contains_name rest name

-- Whether a runner is not skipped; without a filter none is.
abbrev pub is_needed : Option (List String) → String → Bool
is_needed none name = true
is_needed (some needed) name = contains_name needed name

abbrev ends_with : String → String → Bool
ends_with text suffix = slice text (len text - len suffix) (len text) == suffix

unfoldable pub runner_tcp_socket_from_host_port : String → String → String
runner_tcp_socket_from_host_port host port =
    if is_some (find? host ":") && not (starts_with host "[") && not (ends_with host "]")
    then "[" ++ host ++ "]:" ++ port
    else host ++ ":" ++ port

module _ (net : Network) where
  open net use {IpAddr, trim}

  abbrev pub host_or_default : Option String → String
  host_or_default none = "127.0.0.1"
  host_or_default (some raw) = if trim raw == "" then "127.0.0.1" else trim raw

  -- A managed runner binds the loopback address whatever its host is.
  abbrev pub host_of : Bool → Option String → String
  host_of external tcp_host = if external then host_or_default tcp_host else "127.0.0.1"

  abbrev pub of_new : NewPool IpAddr → BuildStep IpAddr
  of_new (started ip pool) = made ip pool
  of_new (rejected e) = failed (pool_rejected e)
  of_new (closed pool) = failed pool_closed

  module _ (port_text : ℕ → String) (trials : String → ℕ → ℕ → Trial) (external : Bool) where
    abbrev pub cmd_of : RunnerEntry → List String
    cmd_of c = if external then [] else unwrap_or c.cmd []

    abbrev pub build_at : String → RunnerEntry → ℕ → ℕ → Option ℕ → BuildStep IpAddr
    build_at name c pool_size max_in_flight none = failed missing_tcp_port
    build_at name c pool_size max_in_flight (some port) = of_new (
        new_pool net (trials name) (cmd_of c) pool_size max_in_flight
          (some (runner_tcp_socket_from_host_port (host_of external c.tcp_host) (port_text port)))
          c.allowed_hosts)

    abbrev pub build_limited : String → RunnerEntry → ℕ → Option ℕ → BuildStep IpAddr
    build_limited name c pool_size none = failed missing_max_in_flight
    build_limited name c pool_size (some max_in_flight) =
        if not external && is_external_mode (cmd_of c)
        then failed empty_cmd
        else build_at name c pool_size max_in_flight c.tcp_port

    -- The processes of others are one pool of one process.
    abbrev pub build_sized : String → RunnerEntry → Option ℕ → Option ℕ → BuildStep IpAddr
    build_sized name c none max_in_flight = failed missing_pool_size
    build_sized name c (some configured) max_in_flight =
        build_limited name c (if external then 1 else configured) max_in_flight

    module _ (sizes limits : List (String × ℕ)) (needed : Option (List String)) where
      -- A turn of the loop.
      unfoldable pub build_runner : String → RunnerEntry → BuildStep IpAddr
      build_runner name c =
          if is_needed needed name
          then build_sized name c (number_of sizes name) (number_of limits name)
          else skipped

      abbrev pub inserted : String → IpAddr → SocketRunnerPool → Runners IpAddr → Runners IpAddr
      inserted name ip pool (built rest) = built ((name, ip, pool) ∷ rest)
      inserted name ip pool (unbuilt e) = unbuilt e

      abbrev pub after_step : String → BuildStep IpAddr → Runners IpAddr → Runners IpAddr
      after_step name skipped rest = rest
      after_step name (made ip pool) rest = inserted name ip pool rest
      after_step name (failed e) rest = unbuilt e

      unfoldable pub build_runners_from_settings_filtered :
          List (String × RunnerEntry) → Runners IpAddr
      build_runners_from_settings_filtered [] = built []
      build_runners_from_settings_filtered ((name, c) ∷ runners) =
          after_step name (build_runner name c) (build_runners_from_settings_filtered runners)
