-- ===== src/Secrets/Store.antt =====
-- The profile store of secrets/store.go, the resolver of secrets/resolver.go and the policy of
-- secrets/context.go. The environment comes as a function.
use mister_morph.Base.{
  trim_space, is_blank, String, Bool, false, ◌||◌, Option, none, some, List, [], ◌∷◌, ◌==◌,
  if◌then◌else◌,
}
use mister_morph.Base.Result.{Except, ok, err}
use mister_morph.Base.Json.{lookup}
use mister_morph.Secrets.Types.{AuthProfile}

-- ProfileStore.Get; a nil store or map has no entries.
unfoldable pub get_profile : List (String × AuthProfile) → String → Option AuthProfile
unfolding lookup
get_profile by_id id = let key = trim_space id in if key == "" then none else lookup key by_id

-- The errors of EnvResolver.Resolve.
pub data SecretError : Type 0 where
  empty_secret_ref : SecretError
  secret_not_found : String → SecretError
  secret_is_empty : String → SecretError

abbrev alias_or : String → Option String → String
alias_or ref none = ref
alias_or ref (some v) = if is_blank v then ref else trim_space v

-- envName
unfoldable pub env_name : List (String × String) → String → String
unfolding lookup
env_name aliases ref = alias_or ref (lookup ref aliases)

-- EnvResolver.Resolve, with os.LookupEnv as a function
unfoldable pub resolve_secret :
    (String → Option String) → List (String × String) → String → Except SecretError String
unfolding env_name
resolve_secret lookup_env aliases secret_ref =
    let ref = trim_space secret_ref in
    let name = env_name aliases ref in
    if ref == "" then err empty_secret_ref else elim (lookup_env name) [
      | none ↦ err (secret_not_found name)
      | some val ↦ if is_blank val then err (secret_is_empty name) else ok val
    ]

-- SkillAuthProfilePolicy; the map has true under each of its keys.
pub record SkillAuthProfilePolicy : Type 0 where
  pub allowed : List String
  pub enforce : Bool

unfoldable pub trimmed_ids : List String → List String
trimmed_ids [] = []
trimmed_ids (id ∷ ids) =
    let rest = trimmed_ids ids in if trim_space id == "" then rest else trim_space id ∷ rest

-- The policy of WithSkillAuthProfilePolicy
unfoldable pub skill_policy : List String → Bool → SkillAuthProfilePolicy
unfolding trimmed_ids
skill_policy allowed enforce = record { allowed = trimmed_ids allowed; enforce = enforce }

unfoldable pub has_text : String → List String → Bool
has_text key [] = false
has_text key (t ∷ texts) = t == key || has_text key texts
