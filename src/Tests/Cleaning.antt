-- ===== src/Tests/Cleaning.antt =====
-- A host with one process that ignores SIGTERM, and the cleanup of its registry.
use browser_fetch_router.Prelude.{
  any, ℕ, ◌≡◌, refl, Bool, true, false, Option, none, some, List, [], ◌∷◌, all,
}
use browser_fetch_router.Prelude.Text.{codes, text_eq}
use browser_fetch_router.Lifecycle.SessionId.{validate_session_id}
use browser_fetch_router.Lifecycle.Kill.{
  created, Signalled, Psutil, should_kill_process, kill_pid_safely,
}
use browser_fetch_router.Lifecycle.Cleanup.{
  Entry, Registry, Files, clean_entries, clean_content, clean_registry, clean_targets, run_cleanup,
}

-- The host is whether the process runs.
abbrev waits : Bool → Option (List ℕ)
waits true = some (42 ∷ [])
waits false = some []

abbrev ps : Psutil Bool
ps = record {
  importable = true;
  create_time = λ pid host. created 5000;
  children = λ pid host. none;
  terminate = λ pid host. host;
  signal_leader = λ pid host. (Signalled.sent, host);
  wait_procs = λ procs host. (waits host, host);
  kill = λ pid host. false;
}

abbrev files : Files Bool
files = record {
  resolve = λ dir. none;
  temp_root = none;
  is_dir = λ dir host. false;
  rmtree = λ dir host. (false, host);
  renames = λ path host. true;
  unlinks = λ path host. true;
}

abbrev registries : List Registry
registries =
    record {
      path = codes "s1.json";
      mtime = 7;
      content = some (Entry.registered 42 5000 none ∷ []);
      aside = false;
    }
    ∷ record { path = codes "old.json"; mtime = 7; content = none; aside = false }
    ∷ []

-- What a dry run of all leaves: the corrupt registry is moved aside.
abbrev previewed : List Registry
previewed =
    record {
      path = codes "s1.json";
      mtime = 7;
      content = some (Entry.registered 42 5000 none ∷ []);
      aside = false;
    }
    ∷ record { path = codes "old.json"; mtime = 7; content = none; aside = true }
    ∷ []

-- The same without the dry run ends the process and removes the registry.
wet :
    run_cleanup ps files true false 100 30 (some (codes "s1")) false registries true
    ≡ some
        (record { path = codes "old.json"; mtime = 7; content = none; aside = false } ∷ [], false)
unfolding run_cleanup clean_targets clean_registry clean_content clean_entries kill_pid_safely
    should_kill_process validate_session_id codes all any text_eq
wet = refl

abbrev left : List Registry × Bool
left = (previewed, true)
