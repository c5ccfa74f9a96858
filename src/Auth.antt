-- ===== src/Auth.antt =====
-- Who a request is from: backend/internal/auth/middleware.go over the table api_tokens of
-- backend/internal/database/repository.go. Checking a token's signature and parsing a UUID are
-- parameters (`Verifier`). The update of the last use, which runs beside the request, is done at once.
pub mod Tokens
use reflow_gateway.Base.{
  ℕ, ◌+◌, Bool, true, false, not, ◌&&◌, Option, none, some, List, [], ◌∷◌, map, any, is_some, ltb,
  if◌then◌else◌,
}
use reflow_gateway.Base.Text.{Text, lit, ◌==◌, cut}
use reflow_gateway.Base.Results.{Error, Result, ok, err, not_found, failure}

pub record ApiToken : Type 0 where
  pub id : Text
  pub user_id : Text
  pub jti : Text
  pub name : Text
  pub last_used_at : Option ℕ
  pub created_at : ℕ
  pub revoked_at : Option ℕ

pub record TokenTable : Type 0 where
  pub api_tokens : List ApiToken
  pub reachable : Bool

pub record Claims : Type 0 where
  pub user_id : Text
  pub email : Text
  pub role : Text
  pub groups : List Text
  pub jti : Text

pub record Verifier : Type 0 where
  pub validate_token : Text → Option Claims
  pub parse_uuid : Text → Option Text

unfoldable pub find_api_token : Text → List ApiToken → Option ApiToken
find_api_token jti [] = none
find_api_token jti (t ∷ ts) =
    let later = find_api_token jti ts in if t.jti == jti then some t else later

abbrev pub found_or : Option ApiToken → Result ApiToken
found_or none = err not_found
found_or (some t) = ok t

unfoldable pub get_api_token_by_jti : TokenTable → Text → Result ApiToken
get_api_token_by_jti db jti =
    if db.reachable
    then found_or (find_api_token jti db.api_tokens)
    else err (failure (lit "connection refused"))

abbrev pub use_now : Text → ℕ → ApiToken → ApiToken
use_now jti now t = if t.jti == jti then record t { last_used_at = some now } else t

unfoldable pub update_api_token_last_used : TokenTable → Text → ℕ → TokenTable
update_api_token_last_used db jti now =
    if db.reachable then record db { api_tokens = map (use_now jti now) db.api_tokens } else db

abbrev pub revoke_now : Text → Text → ℕ → ApiToken → ApiToken
revoke_now id user_id now t =
    if t.id == id && t.user_id == user_id then record t { revoked_at = some now } else t

unfoldable pub revoke_api_token : TokenTable → Text → Text → ℕ → Result (Unit {0}) × TokenTable
revoke_api_token db id user_id now =
    if not db.reachable
    then (err (failure (lit "connection refused")), db)
    else if any (λ t. t.id == id && t.user_id == user_id) db.api_tokens
    then (ok tt, record db { api_tokens = map (revoke_now id user_id now) db.api_tokens })
    else (err not_found, db)

-- `strings.ToLower`, of which only the ASCII letters matter here.
unfoldable pub lower : ℕ → ℕ
lower c = if ltb c b'A' then c else if ltb b'Z' c then c else c + 32

-- The token of a request: the header `Authorization`, or the query's `token`.
unfoldable pub token_of : Text → Text → Result Text
token_of header query =
    if not (header == [])
    then elim (cut b' ' header) [
      | none ↦ err (failure (lit "Invalid authorization header format"))
      | some (scheme, token) ↦
          if not (map lower scheme == lit "bearer")
          then err (failure (lit "Invalid authorization header format"))
          else ok token
    ]
    else if not (query == [])
    then ok query
    else err (failure (lit "Authorization header required"))

-- The request goes on with the user and the claims in its context, or is answered.
pub data Verdict : Type 0 where
  passed : Text → Claims → Verdict
  refused : ℕ → Text → Verdict

abbrev pub message : Error → Text
message not_found = lit "Token not found"
message (failure m) = m

unfoldable pub check_row : Verifier → TokenTable → ℕ → Claims → ApiToken → Verdict × TokenTable
check_row v db now claims row =
    if is_some row.revoked_at then (refused 401 (lit "Token has been revoked"), db) else (
      elim (v.parse_uuid claims.user_id) [
        | none ↦ refused 401 (lit "Invalid user ID in token")
        | some user_id ↦ passed user_id claims
      ],
      update_api_token_last_used db claims.jti now,
    )

unfoldable pub authenticate : Verifier → TokenTable → ℕ → Text → Text → Verdict × TokenTable
authenticate v db now header query = elim (token_of header query) [
  | err e ↦ (refused 401 (message e), db)
  | ok token ↦ elim (v.validate_token token) [
    | none ↦ (refused 401 (lit "Invalid token"), db)
    | some claims ↦ elim (get_api_token_by_jti db claims.jti) [
      | err not_found ↦ (refused 401 (lit "Token not found"), db)
      | err (failure e) ↦ (refused 500 (lit "Internal server error"), db)
      | ok row ↦ check_row v db now claims row
    ]
  ]
]
