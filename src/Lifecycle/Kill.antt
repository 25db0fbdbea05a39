-- ===== src/Lifecycle/Kill.antt =====
-- `should_kill_process` and `_kill_pid_safely` of browser_fetch_router/lifecycle.py. What psutil and the kernel
-- do to the processes is a parameter, over a state of the host that they change. Times are in
-- microseconds.
pub mod Gone
use browser_fetch_router.Prelude.{
  ℕ, ◌+◌, ◌-◌, Bool, true, false, not, ◌&&◌, Option, none, some, List, [], ◌∷◌, ltb, ◌==◌,
  if◌then◌else◌,
}

pub data Outcome : Type 0 where
  cleaned skipped failed : Outcome

-- `Process(pid).create_time()`.
pub data Seen : Type 0 where
  no_such_process psutil_error : Seen
  created : ℕ → Seen

-- `os.kill(pid, SIGTERM)`; the last is an OSError, with whether its errno is ESRCH.
pub data Signalled : Type 0 where
  sent process_lookup_error permission_error : Signalled
  os_error : Bool → Signalled

pub record Psutil (Host : Type 0) : Type 0 where
  pub importable : Bool
  pub create_time : ℕ → Host → Seen
  -- `none` is a psutil error
  pub children : ℕ → Host → Option (List ℕ)
  pub terminate : ℕ → Host → Host
  pub signal_leader : ℕ → Host → Signalled × Host
  pub wait_procs : List ℕ → Host → Option (List ℕ) × Host
  pub kill : ℕ → Host → Host

unfoldable pub should_kill_process : ℕ → ℕ → ℕ → ℕ → Bool
should_kill_process expected_pid expected_create_time observed_pid observed_create_time =
    expected_pid == observed_pid
    && ltb
        ((expected_create_time - observed_create_time)
          + (observed_create_time - expected_create_time))
        1000

-- What a call returns, or a default if it raised.
list_or : List ℕ → Option (List ℕ) → List ℕ
list_or default none = default
list_or default (some procs) = procs

module _ {Host : Type 0} where
  pub each : (ℕ → Host → Host) → List ℕ → Host → Host
  each act [] host = host
  each act (p ∷ procs) host = each act procs (act p host)

  module _ (ps : Psutil Host) where
    -- SIGKILL for the survivors, and the second wait.
    escalate : List ℕ → Host → Outcome × Host
    unfolding each list_or
    escalate [] host = (cleaned, host)
    escalate (p ∷ alive) host =
        let (answer, after) = ps.wait_procs (p ∷ alive) (each ps.kill (p ∷ alive) host) in
        elim (list_or (p ∷ alive) answer) [ [] ↦ (cleaned, after) | (q ∷ still) ↦ (failed, after) ]

    wait_and_escalate : List ℕ → Host → Outcome × Host
    unfolding escalate list_or
    wait_and_escalate procs host =
        let (answer, after) = ps.wait_procs procs host in escalate (list_or procs answer) after

    after_signal : Signalled → List ℕ → Host → Outcome × Host
    unfolding wait_and_escalate
    after_signal sent procs host = wait_and_escalate procs host
    after_signal process_lookup_error procs host = wait_and_escalate procs host
    after_signal permission_error procs host = (failed, host)
    after_signal (os_error true) procs host = wait_and_escalate procs host
    after_signal (os_error false) procs host = (failed, host)

    -- The children first, then the leader.
    kill_tree : ℕ → Host → Outcome × Host
    unfolding after_signal each list_or
    kill_tree pid host =
        let descendants = list_or [] (ps.children pid host) in
        let (signalled, after) = ps.signal_leader pid (each ps.terminate descendants host) in
        after_signal signalled (pid ∷ descendants) after

    unfoldable pub kill_pid_safely : ℕ → ℕ → Bool → Host → Outcome × Host
    unfolding kill_tree
    kill_pid_safely pid expected_create_time dry_run host =
        if not ps.importable then (skipped, host) else elim (ps.create_time pid host) [
          | no_such_process ↦ (cleaned, host)
          | psutil_error ↦ (failed, host)
          | created t ↦
              if not (should_kill_process pid expected_create_time pid t)
              then (skipped, host)
              else if dry_run
              then (cleaned, host)
              else kill_tree pid host
        ]
