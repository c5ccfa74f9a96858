-- ===== src/Accounts.antt =====
-- Accounts and their tokens: the tables users and api_tokens of
-- backend/internal/database/repository.go. Ids and times are drawn by the caller.
pub mod Handlers
pub mod Kept
pub mod Signed
pub mod Roles
use reflow_gateway.Base.{
  keep, or_keep, ℕ, ◌+◌, Bool, true, false, not, ◌&&◌, ◌||◌, Option, none, some, List, [], ◌∷◌,
  ◌++◌, map, any, eqb, ltb, if◌then◌else◌, length,
}
use reflow_gateway.Base.Text.{Text, lit, ◌==◌}
use reflow_gateway.Base.Results.{Error, Result, ok, err, not_found, failure}
use reflow_gateway.Auth.{ApiToken, TokenTable, Claims, revoke_api_token}

-- `User` of models.go.
pub record Account : Type 0 where
  pub id : Text
  pub email : Text
  pub password_hash : Text
  pub role : Text
  pub groups : List Text
  pub created_at : ℕ
  pub updated_at : ℕ

-- The tables users, in the order of insertion, and api_tokens.
pub record Accounts : Type 0 where
  pub users : List Account
  pub tokens : TokenTable

pub record UpdateUserRequest : Type 0 where
  pub role : Option Text
  pub groups : Option (List Text)

abbrev pub unreachable : Error
unreachable = failure (lit "connection refused")

-- ErrAlreadyExists
abbrev pub already_exists : Error
already_exists = failure (lit "already exists")

unfoldable pub count_users : Accounts → Result ℕ
count_users db = if db.tokens.reachable then ok (length db.users) else err unreachable

abbrev pub new_account : Text → Text → Text → ℕ → Account
new_account id email password_hash now = record {
  id = id;
  email = email;
  password_hash = password_hash;
  role = lit "user";
  groups = [];
  created_at = now;
  updated_at = now;
}

-- The column email is unique.
unfoldable pub create_user : Text → Text → Text → ℕ → Accounts → Result Account × Accounts
create_user id email password_hash now db =
    if not db.tokens.reachable
    then (err unreachable, db)
    else if any (λ u. u.email == email) db.users
    then (err already_exists, db)
    else (
      ok (new_account id email password_hash now),
      record db { users = db.users ++ new_account id email password_hash now ∷ [] },
    )

unfoldable pub find_user : (Account → Bool) → List Account → Option Account
find_user test [] = none
find_user test (u ∷ us) = let later = find_user test us in if test u then some u else later

abbrev pub account_or_not_found : Bool → Option Account → Result Account
account_or_not_found reachable row =
    if not reachable then err unreachable else elim row [ none ↦ err not_found | some u ↦ ok u ]

unfoldable pub account_by_id : Accounts → Text → Result Account
account_by_id db id =
    account_or_not_found db.tokens.reachable (find_user (λ u. u.id == id) db.users)

unfoldable pub account_by_email : Accounts → Text → Result Account
account_by_email db email =
    account_or_not_found db.tokens.reachable (find_user (λ u. u.email == email) db.users)

abbrev pub edited : UpdateUserRequest → ℕ → Account → Account
edited req now u = record u {
  role = or_keep req.role u.role;
  groups = or_keep req.groups u.groups;
  updated_at = now;
}

-- UPDATE users SET role, groups, updated_at WHERE id
unfoldable pub store_user : Text → Account → List Account → List Account
store_user id new [] = []
store_user id new (u ∷ us) =
    let rest = store_user id new us in
    if u.id == id
    then record u { role = new.role; groups = new.groups; updated_at = new.updated_at } ∷ rest
    else u ∷ rest

unfoldable pub update_user : Text → UpdateUserRequest → ℕ → Accounts → Result Account × Accounts
update_user id req now db = elim (account_by_id db id) [
  | err e ↦ (err e, db)
  | ok u ↦ (ok (edited req now u), record db { users = store_user id (edited req now u) db.users })
]

-- DELETE FROM users WHERE id
unfoldable pub without_user : Text → List Account → List Account
without_user id [] = []
without_user id (u ∷ us) = let rest = without_user id us in if u.id == id then rest else u ∷ rest

-- The user's tokens go too: ON DELETE CASCADE. So do the rows of tables that are not here.
unfoldable pub delete_user : Text → Accounts → Result (Unit {0}) × Accounts
delete_user id db =
    if not db.tokens.reachable
    then (err unreachable, db)
    else if any (λ u. u.id == id) db.users
    then (
      ok tt,
      record db {
        users = without_user id db.users;
        tokens = record db.tokens {
          api_tokens = keep (λ t. not (t.user_id == id)) db.tokens.api_tokens;
        };
      },
    )
    else (err not_found, db)

abbrev pub new_token : Text → Text → Text → Text → ℕ → ApiToken
new_token id user_id jti name now = record {
  id = id;
  user_id = user_id;
  jti = jti;
  name = name;
  last_used_at = none;
  created_at = now;
  revoked_at = none;
}

-- The column jti is unique, and user_id refers to a user.
unfoldable pub create_api_token :
    Text → Text → Text → Text → ℕ → Accounts → Result ApiToken × Accounts
create_api_token id user_id jti name now db =
    if not db.tokens.reachable
    then (err unreachable, db)
    else if any (λ t. t.jti == jti) db.tokens.api_tokens
    then (err already_exists, db)
    else if not (any (λ u. u.id == user_id) db.users)
    then (err (failure (lit "violates foreign key constraint")), db)
    else (
      ok (new_token id user_id jti name now),
      record db {
        tokens = record db.tokens {
          api_tokens = db.tokens.api_tokens ++ new_token id user_id jti name now ∷ [];
        };
      },
    )
