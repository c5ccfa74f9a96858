-- ===== src/Accounts/Handlers.antt =====
-- The handlers of backend/internal/api/handlers.go for registration, login, tokens and users. Hashing
-- a password and signing a token are parameters; what a handler draws (ids and the time) is an
-- argument.
use reflow_gateway.Base.{
  ℕ, Bool, not, ◌||◌, Option, none, some, [], eqb, ltb, if◌then◌else◌, length,
}
use reflow_gateway.Base.Text.{Text, lit, ◌==◌}
use reflow_gateway.Base.Results.{Error, ok, err, not_found, failure}
use reflow_gateway.Auth.{ApiToken, Claims, revoke_api_token}
use reflow_gateway.Accounts.{
  Account, Accounts, UpdateUserRequest, count_users, create_user, account_by_id, account_by_email,
  update_user, create_api_token,
}

-- The libraries: bcrypt, and the signing of claims as a token.
pub record Crypto : Type 0 where
  pub generate_from_password : Text → Option Text
  pub compare_hash : Text → Text → Bool
  pub sign : Claims → Option Text

-- What a handler draws: an id for a user and for a token, a JTI and the time.
pub record Drawn : Type 0 where
  pub user_id : Text
  pub token_id : Text
  pub jti : Text
  pub now : ℕ

-- The claims of GenerateToken.
abbrev pub claims_of : Account → Text → Claims
claims_of u jti = record {
  user_id = u.id;
  email = u.email;
  role = u.role;
  groups = u.groups;
  jti = jti;
}

-- An answer: a status with an error message, or with what is sent.
pub data ApiAnswer : Type 0 where
  write_error : ℕ → Text → ApiAnswer
  signed_in : ℕ → Account → Text → ApiAnswer
  token_made : ApiToken → Text → ApiAnswer
  user_sent : Account → ApiAnswer
  no_content : ApiAnswer

-- GenerateToken and CreateAPIToken, which Register and Login end with.
unfoldable pub sign_in : Crypto → Drawn → Text → ℕ → Account → Accounts → ApiAnswer × Accounts
sign_in crypto drawn name status u db = elim (crypto.sign (claims_of u drawn.jti)) [
  | none ↦ (write_error 500 (lit "Failed to generate token"), db)
  | some token ↦
      let stored = create_api_token drawn.token_id u.id drawn.jti name drawn.now db in
      elim stored.0 [
        | err e ↦ (write_error 500 (lit "Failed to store token"), stored.1)
        | ok row ↦ (signed_in status u token, stored.1)
      ]
]

abbrev pub make_admin : UpdateUserRequest
make_admin = record { role = some (lit "admin"); groups = none }

-- What Register does once the user is created; `count` was read before.
unfoldable pub admit : Crypto → Drawn → ℕ → Account → Accounts → ApiAnswer × Accounts
admit crypto drawn count u db =
    let promoted = update_user u.id make_admin drawn.now db in
    if eqb count 0
    then elim promoted.0 [
      | err e ↦ (write_error 500 (lit "Failed to assign admin role"), promoted.1)
      | ok admin ↦ sign_in crypto drawn (lit "Default") 201 admin promoted.1
    ]
    else sign_in crypto drawn (lit "Default") 201 u db

abbrev pub create_error : Error → ApiAnswer
create_error e = elim e [
  | not_found ↦ write_error 500 (lit "Failed to create user")
  | failure m ↦
      if m == lit "already exists"
      then write_error 409 (lit "Email already registered")
      else write_error 500 (lit "Failed to create user")
]

unfoldable pub register_hashed : Crypto → Drawn → Text → Text → Accounts → ApiAnswer × Accounts
register_hashed crypto drawn email hash db = elim (count_users db) [
  | err e ↦ (write_error 500 (lit "Failed to check user count"), db)
  | ok count ↦
      let created = create_user drawn.user_id email hash drawn.now db in
      elim created.0 [
        | err e ↦ (create_error e, created.1)
        | ok u ↦ admit crypto drawn count u created.1
      ]
]

-- Register, of an email and a password, or none where the body does not decode.
unfoldable pub register_user :
    Crypto → Drawn → Option (Text × Text) → Accounts → ApiAnswer × Accounts
register_user crypto drawn none db = (write_error 400 (lit "Invalid request body"), db)
register_user crypto drawn (some (email, password)) db =
    if (email == []) || (password == [])
    then (write_error 400 (lit "Email and password are required"), db)
    else if ltb (length password) 6
    then (write_error 400 (lit "Password must be at least 6 characters"), db)
    else elim (crypto.generate_from_password password) [
      | none ↦ (write_error 500 (lit "Failed to hash password"), db)
      | some hash ↦ register_hashed crypto drawn email hash db
    ]

unfoldable pub login : Crypto → Drawn → Option (Text × Text) → Accounts → ApiAnswer × Accounts
login crypto drawn none db = (write_error 400 (lit "Invalid request body"), db)
login crypto drawn (some (email, password)) db = elim (account_by_email db email) [
  | err not_found ↦ (write_error 401 (lit "Invalid credentials"), db)
  | err (failure m) ↦ (write_error 500 (lit "Failed to get user"), db)
  | ok u ↦
      if not (crypto.compare_hash u.password_hash password)
      then (write_error 401 (lit "Invalid credentials"), db)
      else sign_in crypto drawn (lit "Login") 200 u db
]

-- The handlers of a signed-in caller. An id or a body that does not parse is none.
unfoldable pub get_current_user : Text → Accounts → ApiAnswer
get_current_user caller_id db = elim (account_by_id db caller_id) [
  | err e ↦ write_error 404 (lit "User not found")
  | ok u ↦ user_sent u
]

unfoldable pub create_token_for : Crypto → Drawn → Text → Account → Accounts → ApiAnswer × Accounts
create_token_for crypto drawn name u db = elim (crypto.sign (claims_of u drawn.jti)) [
  | none ↦ (write_error 500 (lit "Failed to generate token"), db)
  | some token ↦
      let stored = create_api_token drawn.token_id u.id drawn.jti name drawn.now db in
      elim stored.0 [
        | err e ↦ (write_error 500 (lit "Failed to create token"), stored.1)
        | ok row ↦ (token_made row token, stored.1)
      ]
]

-- Handlers.CreateAPIToken, of the name in the body.
unfoldable pub handle_create_token :
    Crypto → Drawn → Text → Option Text → Accounts → ApiAnswer × Accounts
handle_create_token crypto drawn caller_id none db =
    (write_error 400 (lit "Invalid request body"), db)
handle_create_token crypto drawn caller_id (some name) db = elim (account_by_id db caller_id) [
  | err e ↦ (write_error 404 (lit "User not found"), db)
  | ok u ↦ create_token_for crypto drawn name u db
]

-- Handlers.RevokeAPIToken
unfoldable pub handle_revoke_token : Text → Option Text → ℕ → Accounts → ApiAnswer × Accounts
handle_revoke_token caller_id none now db = (write_error 400 (lit "Invalid token ID"), db)
handle_revoke_token caller_id (some id) now db =
    let revoked = revoke_api_token db.tokens id caller_id now in
    (
      elim revoked.0 [
        | ok _ ↦ no_content
        | err not_found ↦ write_error 404 (lit "Token not found")
        | err (failure m) ↦ write_error 500 (lit "Failed to revoke token")
      ],
      record db { tokens = revoked.1 },
    )

abbrev pub blank : Account → Account
blank u = record u { password_hash = [] }

-- Handlers.UpdateUser, for a caller with a role.
unfoldable pub handle_update_user :
    Text → Option Text → Option UpdateUserRequest → ℕ → Accounts → ApiAnswer × Accounts
handle_update_user role id req now db =
    if not (role == lit "admin")
    then (write_error 403 (lit "Admin access required"), db)
    else elim id [
      | none ↦ (write_error 400 (lit "Invalid user ID"), db)
      | some user_id ↦ elim req [
        | none ↦ (write_error 400 (lit "Invalid request body"), db)
        | some r ↦
            let updated = update_user user_id r now db in
            (
              elim updated.0 [
                | ok u ↦ user_sent (blank u)
                | err not_found ↦ write_error 404 (lit "User not found")
                | err (failure m) ↦ write_error 500 (lit "Failed to update user")
              ],
              updated.1,
            )
      ]
    ]

-- Whose sessions RecycleSessions recycles: the caller's, or, for an admin, those of the user in
-- the path.
pub data RecycledFor : Type 0 where
  recycled_for : Text → RecycledFor
  recycle_refused : ℕ → Text → RecycledFor

unfoldable pub recycle_sessions_for : (Text → Option Text) → Text → Text → Text → RecycledFor
recycle_sessions_for parse_uuid caller_id role id =
    if id == []
    then recycled_for caller_id
    else if not (role == lit "admin")
    then recycle_refused 403 (lit "Admin access required")
    else elim (parse_uuid id) [
      | none ↦ recycle_refused 400 (lit "Invalid user ID")
      | some user_id ↦ recycled_for user_id
    ]
