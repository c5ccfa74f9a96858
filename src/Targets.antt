-- ===== src/Targets.antt =====
-- Targets and the secrets that a session uses for them: the token tables and the environment
-- configs of backend/internal/database/repository.go, models.go. The database answers every
-- statement of an operation or none (`reachable`). Timestamps and row ids are left out.
pub mod Tokens
pub mod Envs
use reflow_gateway.Base.{
  Bool, true, false, not, ◌&&◌, Option, none, some, List, [], ◌∷◌, any, keep, if◌then◌else◌,
}
use reflow_gateway.Base.Text.{Text, lit, ◌==◌}
use reflow_gateway.Base.Maps.{Map, lookup, insert}
use reflow_gateway.Base.Results.{Error, Result, ok, err, not_found, failure, ◌>>=◌}

pub record Target : Type 0 where
  pub id : Text
  pub name : Text
  pub url : Text
  pub transport_type : Text
  pub command : Text
  pub image : Text
  pub isolation_boundary : Text
  pub auth_type : Text
  pub auth_header_name : Text
  pub enabled : Bool
  pub default_encrypted_token : Option Text

-- A row of user_target_tokens, role_target_tokens or group_target_tokens: the owner is the user's
-- id, the role or the group's name.
pub record TargetToken : Type 0 where
  pub owner : Text
  pub target_id : Text
  pub encrypted_token : Text

pub record TargetEnvConfig : Type 0 where
  pub target_id : Text
  pub scope_type : Text
  pub scope_value : Option Text
  pub env_key : Text
  pub encrypted_value : Text
  pub description : Option Text

pub record Secrets : Type 0 where
  pub targets : List Target
  pub user_target_tokens : List TargetToken
  pub role_target_tokens : List TargetToken
  pub group_target_tokens : List TargetToken
  pub target_env_configs : List TargetEnvConfig
  pub reachable : Bool

pub record TokenInfo : Type 0 where
  pub token : Text
  pub source : Text

pub record EnvConfigInfo : Type 0 where
  pub key : Text
  pub value : Text
  pub source : Text
  pub scope_value : Text
  pub description : Text

abbrev pub out_of_reach {ℓ} : {A : Type ℓ} → Result A
out_of_reach = err (failure (lit "connection refused"))

-- The row of an owner for a target.
unfoldable pub find_token : Text → Text → List TargetToken → Option TargetToken
find_token owner target_id [] = none
find_token owner target_id (t ∷ ts) =
    let later = find_token owner target_id ts in
    if t.owner == owner && t.target_id == target_id then some t else later

-- INSERT ... ON CONFLICT (owner, target_id) DO UPDATE
unfoldable pub upsert_token : Text → Text → Text → List TargetToken → List TargetToken
upsert_token owner target_id token [] =
    record { owner = owner; target_id = target_id; encrypted_token = token } ∷ []
upsert_token owner target_id token (t ∷ ts) =
    let later = upsert_token owner target_id token ts in
    if t.owner == owner && t.target_id == target_id
    then record t { encrypted_token = token } ∷ ts
    else t ∷ later

-- `pgx.ErrNoRows` becomes `ErrNotFound`.
abbrev pub row_or_not_found {ℓ} : {A : Type ℓ} → Option A → Result A
row_or_not_found none = err not_found
row_or_not_found (some row) = ok row

unfoldable pub get_user_target_token : Secrets → Text → Text → Result TargetToken
get_user_target_token db user_id target_id =
    if db.reachable
    then row_or_not_found (find_token user_id target_id db.user_target_tokens)
    else out_of_reach

unfoldable pub get_role_target_token : Secrets → Text → Text → Result TargetToken
get_role_target_token db role target_id =
    if db.reachable
    then row_or_not_found (find_token role target_id db.role_target_tokens)
    else out_of_reach

unfoldable pub get_group_target_token : Secrets → Text → Text → Result TargetToken
get_group_target_token db group_name target_id =
    if db.reachable
    then row_or_not_found (find_token group_name target_id db.group_target_tokens)
    else out_of_reach

-- A statement on a database out of reach changes nothing.
abbrev pub when_reachable : Secrets → Secrets → Result (Unit {0}) × Secrets
when_reachable db changed = if db.reachable then (ok tt, changed) else (out_of_reach, db)

unfoldable pub set_user_target_token : Secrets → Text → Text → Text → Result (Unit {0}) × Secrets
set_user_target_token db user_id target_id token =
    when_reachable db (record db {
      user_target_tokens = upsert_token user_id target_id token db.user_target_tokens;
    })

unfoldable pub set_role_target_token : Secrets → Text → Text → Text → Result (Unit {0}) × Secrets
set_role_target_token db role target_id token =
    when_reachable db
      (record db { role_target_tokens = upsert_token role target_id token db.role_target_tokens })

unfoldable pub set_group_target_token : Secrets → Text → Text → Text → Result (Unit {0}) × Secrets
set_group_target_token db group_name target_id token = when_reachable db (record db {
  group_target_tokens = upsert_token group_name target_id token db.group_target_tokens;
})

find_target : Text → List Target → Option Target
find_target id [] = none
find_target id (t ∷ ts) = let later = find_target id ts in if t.id == id then some t else later

unfoldable pub get_target_by_id : Secrets → Text → Result Target
unfolding find_target
get_target_by_id db id =
    if db.reachable then row_or_not_found (find_target id db.targets) else out_of_reach

-- `err == nil` returns, `err != ErrNotFound` gives up, and otherwise the next step is tried.
abbrev pub or_next {ℓ} : {A : Type ℓ} → Result A → Result A → Result A
or_next (ok a) next = ok a
or_next (err not_found) next = next
or_next (err (failure e)) next = err (failure e)

abbrev pub token_info : Text → Result TargetToken → Result TokenInfo
token_info source (ok row) = ok (record { token = row.encrypted_token; source = source })
token_info source (err e) = err e

unfoldable pub first_group_token : Secrets → List Text → Text → Result TokenInfo
first_group_token db [] target_id = err not_found
first_group_token db (group ∷ groups) target_id =
    or_next (token_info (lit "group") (get_group_target_token db group target_id))
      (first_group_token db groups target_id)

unfoldable pub default_token : Target → Result TokenInfo
default_token target = elim target.default_encrypted_token [
  | none ↦ err not_found
  | some token ↦
      if not (token == [])
      then ok (record { token = token; source = lit "default" })
      else err not_found
]

unfoldable pub resolve_token_for_target :
    Secrets → Text → Text → List Text → Text → Result TokenInfo
resolve_token_for_target db user_id role groups target_id =
    or_next (token_info (lit "user") (get_user_target_token db user_id target_id)) (
      or_next
        (if not (role == [])
          then token_info (lit "role") (get_role_target_token db role target_id)
          else err not_found)
        (or_next (first_group_token db groups target_id)
          (get_target_by_id db target_id >>= default_token)))

abbrev pub same_value : Option Text → Option Text → Bool
same_value none none = true
same_value none (some w) = false
same_value (some v) none = false
same_value (some v) (some w) = v == w

-- The rows of one scope. The query orders them by key; the callers put them in a map, and the keys
-- of one scope differ, so the order is left out.
unfoldable pub get_env_configs : Secrets → Text → Text → Option Text → Result (List TargetEnvConfig)
get_env_configs db target_id scope_type scope_value =
    if db.reachable
    then ok (
        keep
          (λ c.
            c.target_id == target_id
            && c.scope_type == scope_type
            && same_value c.scope_value scope_value)
          db.target_env_configs)
    else out_of_reach

unfoldable pub env_config_info : Text → Text → TargetEnvConfig → EnvConfigInfo
env_config_info source scope_value c = record {
  key = c.env_key;
  value = c.encrypted_value;
  source = source;
  scope_value = scope_value;
  description = elim c.description [ none ↦ [] | some d ↦ d ];
}

unfoldable pub put_configs :
    Text → Text → List TargetEnvConfig → Map EnvConfigInfo → Map EnvConfigInfo
put_configs source scope_value [] configs = configs
put_configs source scope_value (c ∷ cs) configs =
    put_configs source scope_value cs
      (insert c.env_key (env_config_info source scope_value c) configs)

-- A group's config gives way to one that a user has set.
unfoldable pub put_group_configs :
    Text → List TargetEnvConfig → Map EnvConfigInfo → Map EnvConfigInfo
put_group_configs group [] configs = configs
put_group_configs group (c ∷ cs) configs =
    let put = insert c.env_key (env_config_info (lit "group") group c) configs in
    put_group_configs group cs (elim (lookup c.env_key configs) [
      | none ↦ put
      | some existing ↦ if not (existing.source == lit "user") then put else configs
    ])

unfoldable pub with_groups :
    Secrets → Text → List Text → Map EnvConfigInfo → Result (Map EnvConfigInfo)
with_groups db target_id [] configs = ok configs
with_groups db target_id (group ∷ groups) configs =
    get_env_configs db target_id (lit "group") (some group) >>= λ rows.
    with_groups db target_id groups (put_group_configs group rows configs)

unfoldable pub with_role : Secrets → Text → Text → Map EnvConfigInfo → Result (Map EnvConfigInfo)
with_role db target_id role configs =
    if not (role == [])
    then get_env_configs db target_id (lit "role") (some role)
      >>= (λ rows. ok (put_configs (lit "role") role rows configs))
    else ok configs

unfoldable pub resolve_env_configs_for_target :
    Secrets → Text → Text → Text → List Text → Result (Map EnvConfigInfo)
resolve_env_configs_for_target db target_id user_id role groups =
    get_env_configs db target_id (lit "default") none
    >>= (λ rows. with_role db target_id role (put_configs (lit "default") [] rows []))
    >>= (λ configs. with_groups db target_id groups configs)
    >>= (λ configs. get_env_configs db target_id (lit "user") (some user_id) >>= λ rows.
        ok (put_configs (lit "user") user_id rows configs))
