-- ===== src/Policy.antt =====
-- The rows of authorization policies: backend/internal/database/models.go. A UUID is the text
-- that its `String` method prints; a time is a number of nanoseconds.
pub mod Handlers
pub mod Store
use reflow_gateway.Base.{ℕ, Bool, Option, List, [], ◌∷◌, All}
use reflow_gateway.Base.Int.{ℤ, ◌≤ℤ◌}
use reflow_gateway.Base.Text.{Text}

pub record PolicySubject : Type 0 where
  pub id : Text
  pub policy_id : Text
  pub subject_type : Text
  pub subject_value : Option Text
  pub created_at : ℕ

pub record AuthorizationPolicy : Type 0 where
  pub id : Text
  pub name : Text
  pub description : Text
  pub target_id : Option Text
  pub resource_type : Text
  pub resource_pattern : Option Text
  pub effect : Text
  pub priority : ℤ
  pub enabled : Bool
  pub subjects : List PolicySubject
  pub created_at : ℕ
  pub updated_at : ℕ

-- Highest priority first, as the query orders the rows.
abbrev pub IsRanked : List AuthorizationPolicy → Type 0
IsRanked [] = Unit
IsRanked (p ∷ ps) = All (λ q. q.priority ≤ℤ p.priority) ps × IsRanked ps
