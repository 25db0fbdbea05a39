-- ===== src/Environment/Allowed.antt =====
-- What a provider never gets from the environment.
use browser_fetch_router.Prelude.{
  ◌≡◌, ◌⊎◌, refl, inl, inr, Bool, true, not, ◌&&◌, Option, none, some, List, [], ◌∷◌, All, any, all,
  keep, keep_holds, Bool-cases, and_true, arith,
}
use browser_fetch_router.Prelude.Text.{Text, codes, text_eq, one_of, eq_of_text_eq, text_eq_refl}
use browser_fetch_router.Prelude.Dict.{get, put}
use browser_fetch_router.Environment.{
  Environ, known_provider_keys, blocked_agent_keys, safe_base_env_keys, is_safe_base, with_key,
  add_keys, provider_env,
}

-- A test that holds of all options holds of one of them.
one_of-holds :
    (p : Text → Bool) (k : Text) (options : List Text)
    → all p options ≡ true
    → one_of k options ≡ true
    → p k ≡ true
unfolding one_of all any
one_of-holds p k [] h e = absurd (cc)
one_of-holds p k (o ∷ options) h e = elim (Bool-cases (text_eq k o)) [
  | inl same ↦ rw (eq_of_text_eq k o same) (and_true (p o) (all p options) h).0
  | inr other ↦ one_of-holds p k options (and_true (p o) (all p options) h).1 (ground arith)
]

abbrev pub is_unblocked : Text → Bool
is_unblocked k = not (one_of k blocked_agent_keys)

safe_unblocked : all is_unblocked safe_base_env_keys ≡ true
unfolding all one_of any text_eq codes
safe_unblocked = refl

module _ (required : List Text) (environ : Environ) where
  -- A variable that a provider may get: of the base, or a known key that was asked for; and none that
  -- belongs to an agent.
  abbrev pub IsAllowed : Text × Text → Type 0
  IsAllowed kv =
      (is_unblocked kv.0 ≡ true)
      × ((one_of kv.0 safe_base_env_keys ≡ true)
          ⊎ ((one_of kv.0 known_provider_keys ≡ true) × (one_of kv.0 required ≡ true)))

  abbrev ByKey : (Text → Type 0) → Text × Text → Type 0
  ByKey Q kv = Q kv.0

  put-All :
      (Q : Text → Type 0) (k v : Text) (env : Environ)
      → Q k
      → All (ByKey Q) env
      → All (ByKey Q) (put k v env)
  unfolding put
  put-All Q k v [] q h = (q, tt)
  put-All Q k v ((j, x) ∷ env) q h = elim (Bool-cases (text_eq j k)) [
    | inl e ↦ rw e (h.0, h.1)
    | inr e ↦ rw e (h.0, put-All Q k v env q h.1)
  ]

  abbrev Key : Text → Type 0
  Key k =
      (is_unblocked k ≡ true)
      × ((one_of k safe_base_env_keys ≡ true)
          ⊎ ((one_of k known_provider_keys ≡ true) × (one_of k required ≡ true)))

  base_allowed : (env : Environ) → All (λ kv. is_safe_base kv ≡ true) env → All (ByKey Key) env
  base_allowed [] h = tt
  base_allowed ((k, v) ∷ env) h = (
    (one_of-holds is_unblocked k safe_base_env_keys safe_unblocked h.0, inl h.0),
    base_allowed env h.1,
  )

  with_key-All :
      (k : Text) (o : Option Text) (env : Environ)
      → Key k
      → All (ByKey Key) env
      → All (ByKey Key) (with_key k o env)
  unfolding with_key
  with_key-All k none env q h = h
  with_key-All k (some v) env q h = put-All Key k v env q h

  add_keys-All :
      (keys : List Text) (env : Environ)
      → ((k : Text) → one_of k keys ≡ true → one_of k required ≡ true)
      → All (ByKey Key) env
      → All (ByKey Key) (add_keys environ keys env)
  unfolding add_keys one_of any
  add_keys-All [] env sub h = h
  add_keys-All (key ∷ keys) env sub h =
      elim (Bool-cases (not (one_of key blocked_agent_keys) && one_of key known_provider_keys)) [
        | inl e ↦
            let both = and_true _ _ e in
            rw e (
              add_keys-All keys (with_key key (get key environ) env)
                (λ k m. sub k (ground (arith, m)))
                (with_key-All key (get key environ) env
                  (both.0, inr (both.1, sub key (ground (arith, text_eq_refl key)))) h))
        | inr e ↦ rw e (add_keys-All keys env (λ k m. sub k (ground (arith, m))) h)
      ]

  -- A provider gets variables of the base and the known provider keys that were asked for, and nothing
  -- else: no credential of an agent, also where it is asked for.
  pub provider_env-IsAllowed : All IsAllowed (provider_env required environ)
  unfolding provider_env
  provider_env-IsAllowed =
      add_keys-All required (keep is_safe_base environ) (λ k m. m)
        (base_allowed (keep is_safe_base environ) (keep_holds is_safe_base environ))
