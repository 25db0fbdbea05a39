-- ===== src/Lifecycle/Cleanup.antt =====
-- `run_cleanup`, `_cleanup_registered_process_resources` and `_remove_cdp_profile_dir` of
-- browser_fetch_router/lifecycle.py, without the rotation of logs and the report, and with what
-- `read_json_dict` of browser_fetch_router/paths.py does to a corrupt registry. The registry files are a
-- list of records in the order of the directory; the file system around them is a parameter over the
-- same state of the host as the processes. Path resolution and symbolic links are its own.
pub mod Registries
use browser_fetch_router.Prelude.{
  ℕ, ◌-◌, ◌*◌, Bool, true, false, not, ◌&&◌, ◌||◌, Option, none, some, List, [], ◌∷◌, ◌++◌, keep,
  any, ltb, if◌then◌else◌,
}
use browser_fetch_router.Prelude.Text.{Text, codes, text_eq, one_of, starts_with}
use browser_fetch_router.Lifecycle.SessionId.{validate_session_id}
use browser_fetch_router.Lifecycle.Kill.{Outcome, cleaned, skipped, failed, Psutil, kill_pid_safely}

-- One record of `local_processes`, after the conversions of `pid` and `create_time`. The profile is
-- that of an `info` whose kind is read-user-tabs-cdp.
pub data Entry : Type 0 where
  malformed : Entry
  registered : ℕ → ℕ → Option Text → Entry

-- A file of the registry directory. `none` is a content that `read_json_dict` cannot use: no JSON, or
-- no dict. Such a file is moved aside: `backup_corrupt_file` gives it another name, which no cleanup
-- looks for.
pub record Registry : Type 0 where
  pub path : Text
  pub mtime : ℕ
  pub content : Option (List Entry)
  pub aside : Bool

-- What becomes of a registry that is cleaned.
pub data Fate : Type 0 where
  kept unlinked moved : Fate

pub record Resolved : Type 0 where
  pub parent : Text
  pub name : Text

pub record Files (Host : Type 0) : Type 0 where
  -- `Path.resolve`, which may raise
  pub resolve : Text → Option Resolved
  pub temp_root : Option Text
  pub is_dir : Text → Host → Bool
  pub rmtree : Text → Host → Bool × Host
  -- whether a corrupt registry can be renamed
  pub renames : Text → Host → Bool
  -- whether `unlink` of a registry succeeds
  pub unlinks : Text → Host → Bool

is_failed : Outcome → Bool
is_failed failed = true
is_failed cleaned = false
is_failed skipped = false

module _ {Host : Type 0} (ps : Psutil Host) (files : Files Host) where
  remove_if_profile : Resolved → Text → Text → Host → Host
  remove_if_profile r temp_root dir host =
      if text_eq r.parent temp_root
        && starts_with r.name (codes "bfr-cdp-profile.")
        && files.is_dir dir host
      then (files.rmtree dir host).1
      else host

  remove_cdp_profile_dir : Text → Host → Host
  unfolding remove_if_profile
  remove_cdp_profile_dir dir host = elim (files.resolve dir) [
    | none ↦ host
    | some r ↦ elim files.temp_root [ none ↦ host | some root ↦ remove_if_profile r root dir host ]
  ]

  cleanup_resources : Option Text → Outcome → Bool → Host → Host
  unfolding remove_cdp_profile_dir
  cleanup_resources (some dir) cleaned false host = remove_cdp_profile_dir dir host
  cleanup_resources profile outcome dry_run host = host

  -- The outcomes of the entries that are not malformed.
  unfoldable pub clean_entries : Bool → List Entry → Host → List Outcome × Host
  unfolding cleanup_resources
  clean_entries dry_run [] host = ([], host)
  clean_entries dry_run (malformed ∷ entries) host = clean_entries dry_run entries host
  clean_entries dry_run (registered pid create_time profile ∷ entries) host =
      let (outcome, after) = kill_pid_safely ps pid create_time dry_run host in
      let (outcomes, last) =
        clean_entries dry_run entries (cleanup_resources profile outcome dry_run after) in
      (outcome ∷ outcomes, last)

  fate_of : Bool → Bool → Fate
  fate_of moves unlinks = if moves then moved else if unlinks then unlinked else kept

  -- What was read of one registry: its outcomes, what becomes of its file, and the host. A corrupt one
  -- is moved aside, also in a dry run, and read as empty; an unlink after that finds no file.
  unfoldable pub clean_content :
      Bool → Text → Option (List Entry) → Host → List Outcome × Fate × Host
  unfolding is_failed fate_of
  clean_content dry_run path none host =
      ([], fate_of (files.renames path host) (not dry_run && files.unlinks path host), host)
  clean_content dry_run path (some entries) host =
      let (outcomes, after) = clean_entries dry_run entries host in
      (
        outcomes,
        fate_of false (not dry_run && not (any is_failed outcomes) && files.unlinks path after),
        after,
      )

  unfoldable pub clean_registry : Bool → Registry → Host → List Outcome × Fate × Host
  clean_registry dry_run r host = clean_content dry_run r.path r.content host

  after_fate : Fate → Registry → List Registry → List Registry
  after_fate kept r rest = r ∷ rest
  after_fate unlinked r rest = rest
  after_fate moved r rest = record r { aside = true } ∷ rest

  -- The registries, those of the targets cleaned.
  unfoldable pub clean_targets :
      Bool → (Registry → Bool) → List Registry → Host → List Registry × Host
  unfolding after_fate
  clean_targets dry_run target [] host = ([], host)
  clean_targets dry_run target (r ∷ registries) host =
      let (outcomes, fate, after) = clean_registry dry_run r host in
      let (rest, last) = clean_targets dry_run target registries after in
      let (rest', last') = clean_targets dry_run target registries host in
      if target r && not r.aside then (after_fate fate r rest, last) else (r ∷ rest', last')

  is_own : Option Text → Registry → Bool
  is_own none r = false
  is_own (some path) r = text_eq r.path path

  -- The own registry comes first; it is not cleaned again if it is old too.
  clean_both : Bool → Bool → ℕ → Option Text → List Registry → Host → List Registry × Host
  unfolding is_own
  clean_both dry_run orphans cutoff own registries host =
      let (left, after) = clean_targets dry_run (is_own own) registries host in
      clean_targets dry_run (λ r. orphans && ltb r.mtime cutoff && not (is_own own r)) left after

  -- `all_sessions and session_id`; the outer `none` is InvalidSessionId.
  own_path : Bool → Option Text → Option (Option Text)
  own_path false session_id = some none
  own_path true none = some none
  own_path true (some []) = some none
  own_path true (some (c ∷ s)) = elim (validate_session_id (c ∷ s)) [
    | none ↦ none
    | some sid ↦ some (some (sid ++ codes ".json"))
  ]

  unfoldable pub run_cleanup :
      Bool
      → Bool
      → ℕ
      → ℕ
      → Option Text
      → Bool
      → List Registry
      → Host
      → Option (List Registry × Host)
  unfolding clean_both own_path
  run_cleanup all_sessions orphans now max_age_days session_id dry_run registries host =
      elim (own_path all_sessions session_id) [
        | none ↦ none
        | some own ↦
            some (clean_both dry_run orphans (now - max_age_days * 86400) own registries host)
      ]
