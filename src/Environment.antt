-- ===== src/Environment.antt =====
-- browser_fetch_router/env_allowlist.py: what of the environment a provider gets. The environment is
-- the list of its variables; a set of keys is a list.
pub mod Allowed
use browser_fetch_router.Prelude.{
  ℕ, Bool, true, false, not, ◌&&◌, Option, none, some, List, [], ◌∷◌, map, all, keep, leb,
  if◌then◌else◌,
}
use browser_fetch_router.Prelude.Text.{Text, codes, one_of, is_ascii}
use browser_fetch_router.Prelude.Dict.{get, put}

abbrev pub Environ : Type 0
Environ = List (Text × Text)

abbrev pub known_provider_keys : List Text
known_provider_keys =
    map codes ("PARALLEL_API_KEY" ∷ "BROWSERBASE_API_KEY" ∷ "BROWSER_USE_API_KEY" ∷ [])

abbrev pub blocked_agent_keys : List Text
blocked_agent_keys = map codes (
    "ANTHROPIC_API_KEY" ∷ "OPENAI_API_KEY" ∷ "GEMINI_API_KEY" ∷ "GOOGLE_API_KEY" ∷ "CODEX_API_KEY"
    ∷ "KIMI_API_KEY" ∷ "OPENROUTER_API_KEY" ∷ "MISTRAL_API_KEY" ∷ "GROQ_API_KEY"
    ∷ "TOGETHER_API_KEY" ∷ "REPLICATE_API_TOKEN" ∷ "HUGGINGFACE_TOKEN" ∷ "CO_API_KEY"
    ∷ "AWS_SECRET_ACCESS_KEY" ∷ "AWS_SESSION_TOKEN" ∷ "GCP_SERVICE_ACCOUNT" ∷ [])

abbrev pub safe_base_env_keys : List Text
safe_base_env_keys = map codes (
    "HOME" ∷ "PATH" ∷ "TMPDIR" ∷ "LANG" ∷ "LC_ALL" ∷ "LC_CTYPE" ∷ "USER" ∷ "LOGNAME" ∷ "TZ"
    ∷ "BFR_SESSION_ID" ∷ "BFR_AGENT" ∷ [])

abbrev is_printable : Text → Bool
is_printable s = all (λ c. leb 32 c && leb c 126) s

-- The value, the variables that were warned of, and whether a warning was printed.
pub record Credential : Type 0 where
  pub value : Option Text
  pub warned : List Text
  pub printed : Bool

unfoldable pub provider_credential : Text → Environ → List Text → Credential
provider_credential env_var environ warned = elim (get env_var environ) [
  | none ↦ record { value = none; warned = warned; printed = false }
  | some [] ↦ record { value = none; warned = warned; printed = false }
  | some (c ∷ s) ↦
      if is_ascii (c ∷ s) && is_printable (c ∷ s)
      then record { value = some (c ∷ s); warned = warned; printed = false }
      else if one_of env_var warned
      then record { value = none; warned = warned; printed = false }
      else record { value = none; warned = env_var ∷ warned; printed = true }
]

abbrev pub is_safe_base : Text × Text → Bool
is_safe_base kv = one_of kv.0 safe_base_env_keys

unfoldable pub with_key : Text → Option Text → Environ → Environ
with_key key none env = env
with_key key (some value) env = put key value env

-- The loop over the keys that are required.
unfoldable pub add_keys : Environ → List Text → Environ → Environ
unfolding with_key
add_keys environ [] env = env
add_keys environ (key ∷ keys) env = add_keys environ keys (
    if not (one_of key blocked_agent_keys) && one_of key known_provider_keys
    then with_key key (get key environ) env
    else env)

unfoldable pub provider_env : List Text → Environ → Environ
provider_env required environ = add_keys environ required (keep is_safe_base environ)
