-- ===== src/Tests/Fixtures.antt =====
-- Policies, sessions and targets that the tests share.
use reflow_gateway.Base.{ℕ, Bool, true, Option, none, some, [], ◌∷◌}
use reflow_gateway.Base.Int.{pos}
use reflow_gateway.Base.Text.{Text, lit, ◌==◌}
use reflow_gateway.Policy.{AuthorizationPolicy, PolicySubject}
use reflow_gateway.Policy.Store.{Tables}
use reflow_gateway.Authz.{Env, Identity}
use reflow_gateway.Authz.Enforced.{on_database}
use reflow_gateway.Mcp.{http_client, stdio_process}
use reflow_gateway.Session.{Session, new_session}
use reflow_gateway.Session.Manager.{SessionManager, Database, McpSession, User, new_session_manager}

-- A pattern language in which a pattern matches itself alone, and `(` does not compile.
abbrev pub exact_match : Text → Text → Option Bool
exact_match pattern name = some (pattern == name)

abbrev pub policy : Text → Text → Text → Text → ℕ → AuthorizationPolicy
policy id name resource_type effect priority = record {
  id = id;
  name = name;
  description = [];
  target_id = none;
  resource_type = resource_type;
  resource_pattern = none;
  effect = effect;
  priority = pos priority;
  enabled = true;
  subjects = [];
  created_at = 0;
  updated_at = 0;
}

abbrev pub subject : Text → Text → Text → Option Text → PolicySubject
subject id policy_id subject_type subject_value = record {
  id = id;
  policy_id = policy_id;
  subject_type = subject_type;
  subject_value = subject_value;
  created_at = 0;
}

-- Everyone may use everything, but for the tool `drop`; administrators may use that too.
abbrev pub tables : Tables
tables = record {
  authorization_policies =
      policy (lit "p1") (lit "Default Allow All") (lit "all") (lit "allow") 1
      ∷ policy (lit "p3") (lit "Admin Full Access") (lit "all") (lit "allow") 1000
      ∷ record (policy (lit "p2") (lit "No Drop") (lit "tool") (lit "deny") 10) {
        resource_pattern = some (lit "drop");
      }
      ∷ [];
  policy_subjects =
      subject (lit "s1") (lit "p1") (lit "everyone") none
      ∷ subject (lit "s2") (lit "p3") (lit "role") (some (lit "admin"))
      ∷ subject (lit "s3") (lit "p2") (lit "everyone") none
      ∷ [];
  reachable = true;
}

abbrev pub env : Env
env = on_database exact_match tables

abbrev pub plain_user : Identity
plain_user = record { user_id = lit "u1"; role = lit "user"; groups = lit "dev" ∷ lit "ops" ∷ [] }

abbrev pub user_row : User
user_row = record { id = lit "u1"; role = lit "user"; groups = lit "dev" ∷ [] }

abbrev pub session_row : McpSession
session_row = record {
  id = lit "s1";
  user_id = lit "u1";
  created_at = 0;
  last_activity = 0;
  expires_at = 30;
}

abbrev pub database : Database
database = record {
  mcp_sessions = (lit "s1", session_row) ∷ [];
  users = (lit "u1", user_row) ∷ [];
  reachable = true;
}

abbrev pub session : Session
session = new_session (lit "s1") (lit "u1") (lit "user") (lit "dev" ∷ lit "ops" ∷ []) 0 30

-- One target behind HTTP, one behind a process.
abbrev pub connected : Session
connected = record session {
  clients = (lit "git", http_client 1) ∷ (lit "fs", stdio_process 2) ∷ [];
  target_ids = (lit "git", lit "t1") ∷ (lit "fs", lit "t2") ∷ [];
  initialized = true;
}

abbrev pub manager : SessionManager
manager = record (new_session_manager database 30) {
  sessions = (lit "s1", connected) ∷ [];
  active = pos 1;
}
