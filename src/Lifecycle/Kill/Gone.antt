-- ===== src/Lifecycle/Kill/Gone.antt =====
-- What the outcomes of the kill sequence say of the processes.
use browser_fetch_router.Prelude.{
  ℕ, ◌≡◌, ◌⊎◌, inl, inr, refl, true, none, some, List, [], ◌∷◌, Bool-cases, arith,
}
use browser_fetch_router.Lifecycle.Kill.{
  Seen, no_such_process, psutil_error, created, Psutil, each, kill_pid_safely,
}

Seen-cases : (s : Seen) → (s ≡ no_such_process) ⊎ (s ≡ psutil_error) ⊎ ((t : ℕ) × (s ≡ created t))
Seen-cases no_such_process = inl refl
Seen-cases psutil_error = inr (inl refl)
Seen-cases (created t) = inr (inr (t, refl))

module _ {Host : Type 0} (ps : Psutil Host) where
  -- What is left of these processes after a wait: its answer, or all of them where it failed.
  abbrev pub IsLeft : List ℕ → Host → List ℕ → Type 0
  IsLeft procs host left =
      ((ps.wait_procs procs host).0 ≡ some left)
      ⊎ (((ps.wait_procs procs host).0 ≡ none) × (left ≡ procs))

  -- A wait for these processes reported that none is alive, or reported some as left, and a wait for
  -- those after SIGKILL that none of them is.
  pub data AreGone (procs : List ℕ) (host : Host) : Type 0 where
    at_once : (ps.wait_procs procs host).0 ≡ some [] → AreGone procs host
    killed :
        (left : List ℕ)
        → IsLeft procs host left
        → (ps.wait_procs left (each ps.kill left (ps.wait_procs procs host).1)).0 ≡ some []
        → AreGone procs host

  -- The descendants of the process as they were found at first, and that they and the process are gone
  -- behind the signals to all of them.
  pub record NoneAlive (pid : ℕ) (host : Host) : Type 0 where
    pub descendants : List ℕ
    pub of_children :
        (ps.children pid host ≡ some descendants)
        ⊎ ((ps.children pid host ≡ none) × (descendants ≡ []))
    pub gone :
        AreGone (pid ∷ descendants) (ps.signal_leader pid (each ps.terminate descendants host)).1

  -- A dry run changes nothing on the host.
  pub kill_pid_safely-dry_run :
      (pid expected : ℕ) (host : Host) → (kill_pid_safely ps pid expected true host).1 ≡ host
  unfolding kill_pid_safely
  kill_pid_safely-dry_run pid expected host = elim (Bool-cases ps.importable) [
    | inr missing ↦ ground arith
    | inl found ↦ elim (Seen-cases (ps.create_time pid host)) [
      | inl nobody ↦ ground (arith, nobody)
      | inr (inl error) ↦ ground (arith, error)
      | inr (inr (t, seen)) ↦ ground (arith, seen)
    ]
  ]
