-- ===== src/Stdio/Isolation.antt =====
-- Which sessions share a process: `ComputeSubjectKey` of backend/internal/stdio/manager.go.
use reflow_gateway.Base.{◌∷◌, ◌++◌}
use reflow_gateway.Base.Text.{Text}

-- The text that is hashed for a user and a target.
abbrev pub user_text : Text → Text → Text
user_text user_id target_id = user_id ++ (b':' ∷ target_id)
