-- ===== src/Proxy/Clients/Apart.antt =====
-- The secrets of other users: createStdioClient, createK8sClient and createHTTPClient of
-- backend/internal/gateway/proxy.go.
use reflow_gateway.Base.{
  ◌≡◌, refl, ◌∙◌, ap, ◌≢◌, true, not, ◌&&◌, none, some, List, [], ◌∷◌, ◌++◌, is_some, if◌then◌else◌,
}
use reflow_gateway.Base.Text.{Text, lit, ◌==◌}
use reflow_gateway.Base.Maps.{Map, lookup, insert}
use reflow_gateway.Base.Results.{ok, err, failure, ◌>>=◌}
use reflow_gateway.Authz.{Identity}
use reflow_gateway.Targets.{
  Target, Secrets, TargetToken, EnvConfigInfo, get_env_configs, with_role, with_groups, put_configs,
  put_group_configs, resolve_env_configs_for_target, resolve_token_for_target,
  set_user_target_token, upsert_token,
}
use reflow_gateway.Targets.Tokens.{set_user_rows, resolve_token_for_target-set_user_target_token}
use reflow_gateway.Proxy.Clients.{
  Connector, env_configs, legacy_token, env_lines, stdio_env, decrypted_env, k8s_env, decrypted,
  override, auth_header_of, timeout_of, env_headers, configured, http_config, create_stdio_client,
  create_k8s_client, create_http_client,
}
use reflow_gateway.Proxy.Initialize.{create_client}
use reflow_gateway.Stdio.{compute_subject_key}

module _ (db : Secrets) (tokens : List TargetToken) where
  abbrev changed : Secrets
  changed = record db { user_target_tokens = tokens }

  with_groups_same :
      (target_id : Text) (groups : List Text) (m : Map EnvConfigInfo)
      → with_groups changed target_id groups m ≡ with_groups db target_id groups m
  unfolding with_groups get_env_configs
  with_groups_same target_id [] m = refl
  with_groups_same target_id (group ∷ groups) m =
      ap (λ f. get_env_configs db target_id (lit "group") (some group) >>= f)
        (λ i rows. with_groups_same target_id groups (put_group_configs group rows m) i)

  resolve_env_same :
      (target_id user_id role : Text) (groups : List Text)
      → resolve_env_configs_for_target changed target_id user_id role groups
        ≡ resolve_env_configs_for_target db target_id user_id role groups
  unfolding resolve_env_configs_for_target get_env_configs with_role
  resolve_env_same target_id user_id role groups =
      ap
        (λ f.
          get_env_configs db target_id (lit "default") none
          >>= (λ rows. with_role db target_id role (put_configs (lit "default") [] rows []))
          >>= f
          >>= (λ configs. get_env_configs db target_id (lit "user") (some user_id) >>= λ rows.
              ok (put_configs (lit "user") user_id rows configs)))
        (λ i configs. with_groups_same target_id groups configs i)

-- The connector over other secrets.
abbrev over : Connector → Secrets → Connector
over net db = record net { secrets = db }

module _ (net : Connector) (db : Secrets) where
  env_lines_same : (m : Map EnvConfigInfo) → env_lines (over net db) m ≡ env_lines net m
  unfolding env_lines decrypted
  env_lines_same [] = refl
  env_lines_same ((key, config) ∷ m) = λ i. elim (decrypted net config.value) [
    | none ↦ env_lines_same m i
    | some v ↦ (key ++ (b'=' ∷ v)) ∷ env_lines_same m i
  ]

  decrypted_env_same :
      (m : Map EnvConfigInfo) (env : Map Text)
      → decrypted_env (over net db) m env ≡ decrypted_env net m env
  unfolding decrypted_env decrypted
  decrypted_env_same [] env = refl
  decrypted_env_same ((key, config) ∷ m) env = decrypted_env_same m _

  env_headers_same :
      (m : Map EnvConfigInfo) (headers : Map Text)
      → env_headers (over net db) m headers ≡ env_headers net m headers
  unfolding env_headers decrypted
  env_headers_same [] headers = refl
  env_headers_same ((key, config) ∷ m) headers = env_headers_same m _

  module _ (who : Identity) (target : Target)
      (same_configs : resolve_env_configs_for_target db target.id who.user_id who.role who.groups
        ≡ resolve_env_configs_for_target net.secrets target.id who.user_id who.role who.groups)
      (same_token : resolve_token_for_target db who.user_id who.role who.groups target.id
        ≡ resolve_token_for_target net.secrets who.user_id who.role who.groups target.id) where
    env_configs_same : env_configs (over net db) who target ≡ env_configs net who target
    unfolding env_configs
    env_configs_same = λ i. elim (same_configs i) [ err e ↦ [] | ok configs ↦ configs ]

    legacy_token_same : legacy_token (over net db) who target ≡ legacy_token net who target
    unfolding legacy_token decrypted
    legacy_token_same = rw same_token refl

    stdio_env_same : stdio_env (over net db) who target ≡ stdio_env net who target
    unfolding stdio_env
    stdio_env_same =
        let lines : env_lines (over net db) (env_configs (over net db) who target)
            ≡ env_lines net (env_configs net who target) =
          ap (env_lines (over net db)) env_configs_same
          ∙ env_lines_same (env_configs net who target) in
        λ i. net.environ ++ lines i ++ (elim (legacy_token_same i) [
          | none ↦ []
          | some token ↦
              if is_some (lookup (lit "AUTH_TOKEN") (env_configs_same i))
              then []
              else (lit "AUTH_TOKEN=" ++ token) ∷ []
        ])

    k8s_env_same : k8s_env (over net db) who target ≡ k8s_env net who target
    unfolding k8s_env
    k8s_env_same =
        let env : decrypted_env (over net db) (env_configs (over net db) who target) []
            ≡ decrypted_env net (env_configs net who target) [] =
          ap (λ m. decrypted_env (over net db) m []) env_configs_same
          ∙ decrypted_env_same (env_configs net who target) [] in
        λ i. elim (legacy_token_same i) [
          | none ↦ env i
          | some token ↦
              if is_some (lookup (lit "AUTH_TOKEN") (env i))
              then env i
              else insert (lit "AUTH_TOKEN") token (env i)
        ]

    configured_same : configured (over net db) who target ≡ configured net who target
    unfolding configured override auth_header_of timeout_of decrypted
    configured_same = λ i. elim (same_configs i) [
      | err e ↦ record {
        url = target.url;
        auth_token = [];
        auth_header = [];
        timeout = 0;
        custom_headers = [];
        transport_type = target.transport_type;
      }
      | ok configs ↦ record {
        url = override net configs (lit "BASE_URL") target.url;
        auth_token = override net configs (lit "AUTH_TOKEN") [];
        auth_header = auth_header_of net configs target;
        timeout = timeout_of net configs;
        custom_headers = env_headers_same configs [] i;
        transport_type = target.transport_type;
      }
    ]

    http_config_same : http_config (over net db) who target ≡ http_config net who target
    unfolding http_config
    http_config_same = λ i.
        let cfg = configured_same i in
        if cfg.auth_token == []
        then elim (legacy_token_same i) [
          | none ↦ cfg
          | some token ↦ record cfg {
            auth_token = token;
            auth_header =
                if not (target.auth_header_name == []) && cfg.auth_header == []
                then target.auth_header_name
                else cfg.auth_header;
          }
        ]
        else cfg

    stdio_same : create_stdio_client (over net db) who target ≡ create_stdio_client net who target
    unfolding create_stdio_client
    stdio_same = λ i. elim net.stdio_get_or_create [
      | none ↦ err (failure (lit "STDIO manager not configured"))
      | some get_or_create ↦
          if target.command == []
          then err (failure (lit "STDIO target has no command configured"))
          else get_or_create (compute_subject_key net.sum256 target who.user_id who.role who.groups)
              target (stdio_env_same i)
    ]

    k8s_same : create_k8s_client (over net db) who target ≡ create_k8s_client net who target
    unfolding create_k8s_client
    k8s_same = λ i. elim net.k8s_get_or_create [
      | none ↦ err (failure (lit "Kubernetes manager not configured"))
      | some get_or_create ↦
          if target.image == []
          then err (failure (lit "Kubernetes target has no image configured"))
          else get_or_create (compute_subject_key net.sum256 target who.user_id who.role who.groups)
              target (k8s_env_same i)
    ]

    http_same : create_http_client (over net db) who target ≡ create_http_client net who target
    unfolding create_http_client
    http_same = λ i. ok (net.new_client (http_config_same i))

    create_client_same : create_client (over net db) who target ≡ create_client net who target
    unfolding create_client
    create_client_same = λ i.
        if target.transport_type == lit "stdio"
        then stdio_same i
        else if target.transport_type == lit "kubernetes"
        then k8s_same i
        else http_same i

-- On a reachable database, a token that is set for one user on any target changes nothing in how a
-- client is made for another user, for a target of any kind.
pub create_client-set_user_target_token :
    (net : Connector) (who : Identity) (target : Target) (user_id target_id token : Text)
    → net.secrets.reachable ≡ true
    → who.user_id ≢ user_id
    → create_client
        (record net { secrets = (set_user_target_token net.secrets user_id target_id token).1 })
        who
        target
      ≡ create_client net who target
create_client-set_user_target_token net who target user_id target_id token up ne =
    create_client_same net (set_user_target_token net.secrets user_id target_id token).1 who target
      (rw (set_user_rows net.secrets user_id target_id token up) (
        resolve_env_same net.secrets
          (upsert_token user_id target_id token net.secrets.user_target_tokens) target.id
          who.user_id who.role who.groups))
      ((resolve_token_for_target-set_user_target_token net.secrets user_id target_id token up).1
        who.user_id who.role who.groups target.id ne)
