-- ===== src/Mcp.antt =====
-- The parts of the protocol that the gateway reads: backend/internal/mcp/types.go and
-- backend/internal/mcp/interface.go. A JSON value that the gateway passes on is its text.
use reflow_gateway.Base.{ℕ, Bool, true, false, Option, none}
use reflow_gateway.Base.Text.{Text}

pub record ToolsCapability : Type 0 where
  pub list_changed : Bool

pub record ResourcesCapability : Type 0 where
  pub subscribe : Bool
  pub list_changed : Bool

pub record PromptsCapability : Type 0 where
  pub list_changed : Bool

-- `logging` is whether the empty `LoggingCapability` is present.
pub record ServerCapabilities : Type 0 where
  pub tools : Option ToolsCapability
  pub resources : Option ResourcesCapability
  pub prompts : Option PromptsCapability
  pub logging : Bool

abbrev pub no_capabilities : ServerCapabilities
no_capabilities = record { tools = none; resources = none; prompts = none; logging = false }

-- An `MCPClient`: an HTTP client or a process of the stdio manager, named by a number.
pub data McpClient : Type 0 where
  http_client : ℕ → McpClient
  stdio_process : ℕ → McpClient

-- `_, isStdio := client.(*stdio.Process)`
abbrev pub is_stdio : McpClient → Bool
is_stdio (http_client n) = false
is_stdio (stdio_process n) = true

pub record Tool : Type 0 where
  pub name : Text
  pub description : Text
  pub input_schema : Text
  pub annotations : Option Text

pub record Resource : Type 0 where
  pub uri : Text
  pub name : Text
  pub description : Text
  pub mime_type : Text
  pub annotations : Option Text

pub record Prompt : Type 0 where
  pub name : Text
  pub description : Text
  pub arguments : Option Text

-- `content` is the text of the JSON; an error that the gateway makes carries its message.
pub record ToolCallResult : Type 0 where
  pub content : Text
  pub is_error : Bool
