-- ===== src/Accounts/Kept.antt =====
-- The handlers that leave the table users as it was.
use reflow_gateway.Base.{
  ℕ, ◌≡◌, refl, arith, false, Bool-cases, inl, inr, Option, none, some, Option-cases,
}
use reflow_gateway.Base.Text.{Text, lit, ◌==◌}
use reflow_gateway.Base.Results.{Result-cases, not_found, failure}
use reflow_gateway.Accounts.{
  Account, Accounts, UpdateUserRequest, account_by_id, account_by_email, create_api_token,
}
use reflow_gateway.Accounts.Handlers.{
  claims_of, Crypto, Drawn, sign_in, login, create_token_for, handle_create_token,
  handle_revoke_token, handle_update_user,
}

create_api_token-users :
    (id user_id jti name : Text) (now : ℕ) (db : Accounts)
    → (create_api_token id user_id jti name now db).1.users ≡ db.users
unfolding create_api_token
create_api_token-users id user_id jti name now db = ground arith

pub sign_in-users :
    (crypto : Crypto) (drawn : Drawn) (name : Text) (status : ℕ) (u : Account) (db : Accounts)
    → (sign_in crypto drawn name status u db).1.users ≡ db.users
unfolding sign_in
sign_in-users crypto drawn name status u db =
    let same = create_api_token-users drawn.token_id u.id drawn.jti name drawn.now db in
    elim (Option-cases (crypto.sign (claims_of u drawn.jti))) [
      | inl n ↦ rw (n, sign_in) refl
      | inr (token, t) ↦
          elim (Result-cases (create_api_token drawn.token_id u.id drawn.jti name drawn.now db).0) [
            | inl (e, r) ↦ rw (t, sign_in) (rw r same)
            | inr (row, r) ↦ rw (t, sign_in) (rw r same)
          ]
    ]

create_token_for-users :
    (crypto : Crypto) (drawn : Drawn) (name : Text) (u : Account) (db : Accounts)
    → (create_token_for crypto drawn name u db).1.users ≡ db.users
unfolding create_token_for
create_token_for-users crypto drawn name u db =
    let same = create_api_token-users drawn.token_id u.id drawn.jti name drawn.now db in
    elim (Option-cases (crypto.sign (claims_of u drawn.jti))) [
      | inl n ↦ rw (n, create_token_for) refl
      | inr (token, t) ↦
          elim (Result-cases (create_api_token drawn.token_id u.id drawn.jti name drawn.now db).0) [
            | inl (e, r) ↦ rw (t, create_token_for) (rw r same)
            | inr (row, r) ↦ rw (t, create_token_for) (rw r same)
          ]
    ]

pub handle_create_token-users :
    (crypto : Crypto) (drawn : Drawn) (caller_id : Text) (name : Option Text) (db : Accounts)
    → (handle_create_token crypto drawn caller_id name db).1.users ≡ db.users
unfolding handle_create_token
handle_create_token-users crypto drawn caller_id none db = refl
handle_create_token-users crypto drawn caller_id (some name) db =
    elim (Result-cases (account_by_id db caller_id)) [
      | inl (e, r) ↦ rw (r, handle_create_token) refl
      | inr (u, r) ↦ rw (r, handle_create_token) (create_token_for-users crypto drawn name u db)
    ]

pub login-users :
    (crypto : Crypto) (drawn : Drawn) (body : Option (Text × Text)) (db : Accounts)
    → (login crypto drawn body db).1.users ≡ db.users
unfolding login
login-users crypto drawn none db = refl
login-users crypto drawn (some (email, password)) db =
    elim (Result-cases (account_by_email db email)) [
      | inl (not_found, r) ↦ rw (r, login) refl
      | inl (failure m, r) ↦ rw (r, login) refl
      | inr (u, r) ↦ elim (Bool-cases (crypto.compare_hash u.password_hash password)) [
        | inl t ↦ rw (r, login) (rw t (sign_in-users crypto drawn (lit "Login") 200 u db))
        | inr f ↦ rw (r, login) (rw f refl)
      ]
    ]

pub handle_revoke_token-users :
    (caller_id : Text) (id : Option Text) (now : ℕ) (db : Accounts)
    → (handle_revoke_token caller_id id now db).1.users ≡ db.users
unfolding handle_revoke_token
handle_revoke_token-users caller_id none now db = refl
handle_revoke_token-users caller_id (some id) now db = refl

pub handle_update_user-refused :
    (role : Text) (id : Option Text) (req : Option UpdateUserRequest) (now : ℕ) (db : Accounts)
    → (role == lit "admin") ≡ false
    → (handle_update_user role id req now db).1.users ≡ db.users
unfolding handle_update_user
handle_update_user-refused role id req now db h = rw (h, handle_update_user) refl
