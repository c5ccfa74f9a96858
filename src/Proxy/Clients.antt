-- ===== src/Proxy/Clients.antt =====
-- Making a session's client for a target: createStdioClient, createK8sClient and createHTTPClient
-- of backend/internal/gateway/proxy.go. The process manager, the cluster manager, the encryptor and
-- the HTTP client are the `Connector`'s; any of the first three may be absent.
pub mod Apart
use reflow_gateway.Base.{
  ℕ, Bool, not, ◌&&◌, ◌||◌, Option, none, some, List, [], ◌∷◌, ◌++◌, is_some, if◌then◌else◌,
}
use reflow_gateway.Base.Text.{Text, lit, ◌==◌}
use reflow_gateway.Base.Maps.{Map, lookup, insert}
use reflow_gateway.Base.Results.{Result, ok, err, failure}
use reflow_gateway.Authz.{Identity}
use reflow_gateway.Targets.{
  Target, Secrets, EnvConfigInfo, resolve_token_for_target, resolve_env_configs_for_target,
}
use reflow_gateway.Stdio.{compute_subject_key}
use reflow_gateway.Mcp.{McpClient, ServerCapabilities}

pub record ClientConfig : Type 0 where
  pub url : Text
  pub auth_token : Text
  pub auth_header : Text
  pub timeout : ℕ
  pub custom_headers : Map Text
  pub transport_type : Text

pub record Connector : Type 0 where
  pub secrets : Secrets
  pub decrypt : Option (Text → Option Text)
  pub sum256 : Text → List ℕ
  pub environ : List Text
  pub stdio_get_or_create : Option (Text → Target → List Text → Result McpClient)
  pub k8s_get_or_create : Option (Text → Target → Map Text → Result McpClient)
  pub parse_duration : Text → Option ℕ
  pub new_client : ClientConfig → McpClient
  pub initialize : McpClient → Result ServerCapabilities

-- Without an encryptor nothing is decrypted.
unfoldable pub decrypted : Connector → Text → Option Text
decrypted net value = elim net.decrypt [ none ↦ none | some decrypt ↦ decrypt value ]

-- Configs that cannot be resolved are left out.
unfoldable pub env_configs : Connector → Identity → Target → Map EnvConfigInfo
env_configs net who target =
    elim (resolve_env_configs_for_target net.secrets target.id who.user_id who.role who.groups) [
      | err e ↦ []
      | ok configs ↦ configs
    ]

-- The token of the tables, for a target that takes one.
unfoldable pub legacy_token : Connector → Identity → Target → Option Text
legacy_token net who target =
    if target.auth_type == lit "bearer" || target.auth_type == lit "header"
    then elim (resolve_token_for_target net.secrets who.user_id who.role who.groups target.id) [
      | err e ↦ none
      | ok info ↦ decrypted net info.token
    ]
    else none

unfoldable pub env_lines : Connector → Map EnvConfigInfo → List Text
env_lines net [] = []
env_lines net ((key, config) ∷ configs) =
    let rest = env_lines net configs in
    elim (decrypted net config.value) [ none ↦ rest | some v ↦ (key ++ (b'=' ∷ v)) ∷ rest ]

unfoldable pub stdio_env : Connector → Identity → Target → List Text
stdio_env net who target =
    let configs = env_configs net who target in
    net.environ ++ env_lines net configs ++ (elim (legacy_token net who target) [
      | none ↦ []
      | some token ↦
          if is_some (lookup (lit "AUTH_TOKEN") configs)
          then []
          else (lit "AUTH_TOKEN=" ++ token) ∷ []
    ])

unfoldable pub create_stdio_client : Connector → Identity → Target → Result McpClient
create_stdio_client net who target = elim net.stdio_get_or_create [
  | none ↦ err (failure (lit "STDIO manager not configured"))
  | some get_or_create ↦
      if target.command == []
      then err (failure (lit "STDIO target has no command configured"))
      else get_or_create (compute_subject_key net.sum256 target who.user_id who.role who.groups)
          target (stdio_env net who target)
]

unfoldable pub decrypted_env : Connector → Map EnvConfigInfo → Map Text → Map Text
decrypted_env net [] env = env
decrypted_env net ((key, config) ∷ configs) env =
    decrypted_env net configs
      (elim (decrypted net config.value) [ none ↦ env | some v ↦ insert key v env ])

unfoldable pub k8s_env : Connector → Identity → Target → Map Text
k8s_env net who target =
    let env = decrypted_env net (env_configs net who target) [] in
    elim (legacy_token net who target) [
      | none ↦ env
      | some token ↦
          if is_some (lookup (lit "AUTH_TOKEN") env)
          then env
          else insert (lit "AUTH_TOKEN") token env
    ]

unfoldable pub create_k8s_client : Connector → Identity → Target → Result McpClient
create_k8s_client net who target = elim net.k8s_get_or_create [
  | none ↦ err (failure (lit "Kubernetes manager not configured"))
  | some get_or_create ↦
      if target.image == []
      then err (failure (lit "Kubernetes target has no image configured"))
      else get_or_create (compute_subject_key net.sum256 target who.user_id who.role who.groups)
          target (k8s_env net who target)
]

-- A config that is there and decrypts replaces what was there.
unfoldable pub override : Connector → Map EnvConfigInfo → Text → Text → Text
override net configs key old = elim (lookup key configs) [
  | none ↦ old
  | some config ↦ elim (decrypted net config.value) [ none ↦ old | some v ↦ v ]
]

-- The header's name is the config's, or the target's if there is no config.
unfoldable pub auth_header_of : Connector → Map EnvConfigInfo → Target → Text
auth_header_of net configs target =
    if is_some (lookup (lit "AUTH_HEADER") configs) && is_some net.decrypt
    then override net configs (lit "AUTH_HEADER") []
    else target.auth_header_name

unfoldable pub timeout_of : Connector → Map EnvConfigInfo → ℕ
timeout_of net configs = elim (lookup (lit "TIMEOUT") configs) [
  | none ↦ 0
  | some config ↦ elim (decrypted net config.value) [
    | none ↦ 0
    | some v ↦ elim (net.parse_duration v) [ none ↦ 0 | some d ↦ d ]
  ]
]

unfoldable pub reserved : Text → Bool
reserved key =
    key == lit "AUTH_TOKEN"
    || key == lit "AUTH_HEADER"
    || key == lit "BASE_URL"
    || key == lit "TIMEOUT"

unfoldable pub env_headers : Connector → Map EnvConfigInfo → Map Text → Map Text
env_headers net [] headers = headers
env_headers net ((key, config) ∷ configs) headers =
    let put : Map Text = elim (decrypted net config.value) [
      | none ↦ headers
      | some v ↦ insert (lit "X-Env-" ++ key) v headers
    ] in
    env_headers net configs (if not (reserved key) then put else headers)

-- The configuration before the token of the tables is considered. A failure to resolve the configs
-- leaves the header's name empty.
unfoldable pub configured : Connector → Identity → Target → ClientConfig
configured net who target =
    elim (resolve_env_configs_for_target net.secrets target.id who.user_id who.role who.groups) [
      | err e ↦ record {
        url = target.url;
        auth_token = [];
        auth_header = [];
        timeout = 0;
        custom_headers = [];
        transport_type = target.transport_type;
      }
      | ok configs ↦ record {
        url = override net configs (lit "BASE_URL") target.url;
        auth_token = override net configs (lit "AUTH_TOKEN") [];
        auth_header = auth_header_of net configs target;
        timeout = timeout_of net configs;
        custom_headers = env_headers net configs [];
        transport_type = target.transport_type;
      }
    ]

-- Fallback to legacy token resolution.
unfoldable pub http_config : Connector → Identity → Target → ClientConfig
http_config net who target =
    let cfg = configured net who target in
    if cfg.auth_token == []
    then elim (legacy_token net who target) [
      | none ↦ cfg
      | some token ↦ record cfg {
        auth_token = token;
        auth_header =
            if not (target.auth_header_name == []) && cfg.auth_header == []
            then target.auth_header_name
            else cfg.auth_header;
      }
    ]
    else cfg

unfoldable pub create_http_client : Connector → Identity → Target → Result McpClient
create_http_client net who target = ok (net.new_client (http_config net who target))
