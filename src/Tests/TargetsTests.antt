-- ===== src/Tests/TargetsTests.antt =====
-- Tokens and environment configs of one target.
use reflow_gateway.Base.{◌≡◌, refl, true, Option, none, some, [], ◌∷◌}
use reflow_gateway.Base.Text.{Text, lit, ◌==◌}
use reflow_gateway.Base.Maps.{Map, lookup}
use reflow_gateway.Base.Results.{ok}
use reflow_gateway.Targets.{
  Target, TargetEnvConfig, EnvConfigInfo, Secrets, get_target_by_id, row_or_not_found,
  resolve_token_for_target, resolve_env_configs_for_target,
}
use reflow_gateway.Targets.Tokens.{offers, first, resolve_token_for_target-offers}
use reflow_gateway.Targets.Envs.{effective, resolve_env_configs_for_target-effective}

abbrev pub git_target : Target
git_target = record {
  id = lit "t1";
  name = lit "git";
  url = lit "http://git/mcp";
  transport_type = lit "streamable-http";
  command = [];
  image = [];
  isolation_boundary = lit "shared";
  auth_type = lit "bearer";
  auth_header_name = [];
  enabled = true;
  default_encrypted_token = some (lit "d0");
}

abbrev config : Text → Option Text → Text → TargetEnvConfig
config scope_type scope_value value = record {
  target_id = lit "t1";
  scope_type = scope_type;
  scope_value = scope_value;
  env_key = lit "BASE_URL";
  encrypted_value = value;
  description = none;
}

abbrev pub secrets : Secrets
secrets = record {
  targets = git_target ∷ [];
  user_target_tokens = [];
  role_target_tokens = [];
  group_target_tokens =
      record { owner = lit "ops"; target_id = lit "t1"; encrypted_token = lit "g0" } ∷ [];
  target_env_configs =
      config (lit "group") (some (lit "ops")) (lit "e1")
      ∷ config (lit "role") (some (lit "dev")) (lit "e2")
      ∷ config (lit "default") none (lit "e3")
      ∷ [];
  reachable = true;
}

has_git : get_target_by_id secrets (lit "t1") ≡ ok git_target
unfolding get_target_by_id lit ◌==◌
has_git = refl

resolve_token_for_target-offers_example :
    resolve_token_for_target secrets (lit "u1") (lit "dev") (lit "ops" ∷ []) (lit "t1")
    ≡ row_or_not_found
        (first (offers secrets (lit "u1") (lit "dev") (lit "ops" ∷ []) git_target (lit "t1")))
resolve_token_for_target-offers_example =
    resolve_token_for_target-offers secrets (lit "u1") (lit "dev") (lit "ops" ∷ []) (lit "t1")
      git_target refl has_git

resolve_env_configs_for_target-effective_example :
    (m : Map EnvConfigInfo) × (resolve_env_configs_for_target secrets
        (lit "t1")
        (lit "u1")
        (lit "dev")
        (lit "ops" ∷ [])
      ≡ ok m)
    × ((key : Text)
        → lookup key m ≡ effective secrets (lit "t1") (lit "u1") (lit "dev") (lit "ops" ∷ []) key)
resolve_env_configs_for_target-effective_example =
    resolve_env_configs_for_target-effective secrets (lit "t1") (lit "u1") (lit "dev")
      (lit "ops" ∷ []) refl
