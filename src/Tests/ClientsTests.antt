-- ===== src/Tests/ClientsTests.antt =====
-- The client of a target with configs and a token.
use reflow_gateway.Base.{◌≢◌, ◌≡◌, refl, some, [], ◌∷◌}
use reflow_gateway.Base.Text.{lit, ◌==◌}
use reflow_gateway.Base.Maps.{lookup, insert}
use reflow_gateway.Authz.{Identity}
use reflow_gateway.Targets.{
  resolve_env_configs_for_target, get_env_configs, with_role, with_groups, put_configs,
  put_group_configs, env_config_info, resolve_token_for_target, get_user_target_token,
  get_role_target_token, get_group_target_token, find_token, first_group_token,
}
use reflow_gateway.Proxy.Clients.{
  Connector, decrypted, env_configs, legacy_token, env_lines, stdio_env, override, auth_header_of,
  timeout_of, reserved, env_headers, configured, http_config,
}
use reflow_gateway.Targets.{set_user_target_token}
use reflow_gateway.Proxy.Initialize.{create_client}
use reflow_gateway.Proxy.Clients.Apart.{create_client-set_user_target_token}
use reflow_gateway.Tests.TargetsTests.{git_target, secrets}
use reflow_gateway.Tests.InitializeTests.{net}

-- Every text is its own cipher.
abbrev with_secrets : Connector
with_secrets = record net { secrets = secrets; decrypt = some (λ text. some text) }

abbrev who : Identity
who = record { user_id = lit "u1"; role = lit "dev"; groups = lit "ops" ∷ [] }

-- The group's URL, and the group's token since no config gives one.
http : http_config with_secrets who git_target ≡ record {
  url = lit "e1";
  auth_token = lit "g0";
  auth_header = [];
  timeout = 0;
  custom_headers = [];
  transport_type = lit "streamable-http";
}
unfolding http_config configured legacy_token decrypted override auth_header_of timeout_of reserved
    env_headers resolve_env_configs_for_target get_env_configs with_role with_groups put_configs
    put_group_configs env_config_info resolve_token_for_target get_user_target_token
    get_role_target_token get_group_target_token find_token first_group_token lookup insert ◌==◌ lit
http = refl

lines : stdio_env with_secrets who git_target ≡ lit "BASE_URL=e1" ∷ lit "AUTH_TOKEN=g0" ∷ []
unfolding stdio_env env_configs env_lines legacy_token decrypted resolve_env_configs_for_target
    get_env_configs with_role with_groups put_configs put_group_configs env_config_info
    resolve_token_for_target get_user_target_token get_role_target_token get_group_target_token
    find_token first_group_token lookup insert ◌==◌ lit
lines = refl

not_bob : lit "u1" ≢ lit "bob"
unfolding lit
not_bob = λ e. cc

create_client-set_user_target_token_example :
    create_client
      (record with_secrets {
        secrets = (set_user_target_token secrets (lit "bob") (lit "t1") (lit "b0")).1;
      })
      who
      git_target
    ≡ create_client with_secrets who git_target
create_client-set_user_target_token_example =
    create_client-set_user_target_token with_secrets who git_target (lit "bob") (lit "t1")
      (lit "b0") refl not_bob
