-- ===== src/Accounts/Roles.antt =====
-- Who is an admin.
use reflow_gateway.Base.{
  ℕ, ◌≤◌, ◌≡◌, refl, ◌∙◌, ap, arith, false, ◌||◌, Bool-cases, inl, inr, Option, none, some,
  Option-cases, List, [], ◌∷◌, ◌++◌, eqb, ltb, length, length-append, keep, All,
}
use reflow_gateway.Base.Text.{Text, lit, ◌==◌}
use reflow_gateway.Base.Results.{Result-cases, ok}
use reflow_gateway.Accounts.Kept.{
  sign_in-users, handle_create_token-users, login-users, handle_revoke_token-users,
  handle_update_user-refused,
}
use reflow_gateway.Accounts.{
  Account, Accounts, UpdateUserRequest, count_users, new_account, create_user,
}
use reflow_gateway.Accounts.Handlers.{
  Crypto, Drawn, ApiAnswer, admit, register_hashed, register_user, login, handle_create_token,
  handle_revoke_token, handle_update_user,
}

-- The admins among the users.
abbrev pub admins : Accounts → List Account
admins db = keep (λ u. u.role == lit "admin") db.users

-- A request to the API that reaches a handler: public, or of a signed-in caller with an id and
-- a role.
pub data ApiRequest : Type 0 where
  registers : Drawn → Option (Text × Text) → ApiRequest
  logs_in : Drawn → Option (Text × Text) → ApiRequest
  makes_token : Drawn → Text → Option Text → ApiRequest
  revokes_token : Text → Option Text → ℕ → ApiRequest
  updates_user : Text → Option Text → Option UpdateUserRequest → ℕ → ApiRequest

unfoldable pub perform : Crypto → ApiRequest → Accounts → ApiAnswer × Accounts
perform crypto (registers drawn body) db = register_user crypto drawn body db
perform crypto (logs_in drawn body) db = login crypto drawn body db
perform crypto (makes_token drawn caller_id name) db =
    handle_create_token crypto drawn caller_id name db
perform crypto (revokes_token caller_id id now) db = handle_revoke_token caller_id id now db
perform crypto (updates_user role id req now) db = handle_update_user role id req now db

-- No caller of the request is an admin.
abbrev pub IsPlain : ApiRequest → Type 0
IsPlain (updates_user role id req now) = (role == lit "admin") ≡ false
IsPlain (registers drawn body) = Unit
IsPlain (logs_in drawn body) = Unit
IsPlain (makes_token drawn caller_id name) = Unit
IsPlain (revokes_token caller_id id now) = Unit

-- A new user is no admin.
new_account-plain :
    (users : List Account) (id email hash : Text) (now : ℕ)
    → keep (λ u. u.role == lit "admin") (users ++ new_account id email hash now ∷ [])
      ≡ keep (λ u. u.role == lit "admin") users
unfolding lit ◌==◌
new_account-plain [] id email hash now = refl
new_account-plain (u ∷ users) id email hash now =
    ground (arith, new_account-plain users id email hash now)

create_user-admins :
    (id email hash : Text) (now : ℕ) (db : Accounts)
    → admins (create_user id email hash now db).1 ≡ admins db
unfolding create_user
create_user-admins id email hash now db =
    ground (arith, new_account-plain db.users id email hash now)

create_user-length :
    (id email hash : Text) (now : ℕ) (db : Accounts)
    → length db.users ≤ length (create_user id email hash now db).1.users
unfolding create_user
create_user-length id email hash now db =
    ground (arith, length-append db.users (new_account id email hash now ∷ []))

admit-users :
    (crypto : Crypto) (drawn : Drawn) (count : ℕ) (u : Account) (db : Accounts)
    → 1 ≤ count
    → (admit crypto drawn count u db).1.users ≡ db.users
unfolding admit
admit-users crypto drawn count u db h =
    let others : eqb count 0 ≡ false = ground arith in
    rw (others, admit) (sign_in-users crypto drawn (lit "Default") 201 u db)

count_users-length : (db : Accounts) (n : ℕ) → count_users db ≡ ok n → n ≡ length db.users
unfolding count_users
count_users-length db n h = ground arith

-- The admins are as before, and no user is gone.
abbrev Same : Accounts → Accounts → Type 0
Same db after = (admins after ≡ admins db) × (length db.users ≤ length after.users)

Same-users : (db after : Accounts) → after.users ≡ db.users → Same db after
Same-users db after e = (ap (keep (λ u. u.role == lit "admin")) e, omega (arith, ap length e))

register_hashed-Same :
    (crypto : Crypto) (drawn : Drawn) (email hash : Text) (db : Accounts)
    → 1 ≤ length db.users
    → Same db (register_hashed crypto drawn email hash db).1
unfolding register_hashed
register_hashed-Same crypto drawn email hash db h =
    let admins_kept = create_user-admins drawn.user_id email hash drawn.now db in
    let longer = create_user-length drawn.user_id email hash drawn.now db in
    elim (Result-cases (count_users db)) [
      | inl (e, r) ↦ rw (r, register_hashed) (refl, omega arith)
      | inr (count, r) ↦ elim (Result-cases (create_user drawn.user_id email hash drawn.now db).0) [
        | inl (e, c) ↦ rw (r, register_hashed) (rw c (admins_kept, longer))
        | inr (u, c) ↦
            let counted = count_users-length db count r in
            let kept =
              admit-users crypto drawn count u (create_user drawn.user_id email hash drawn.now db).1
                (omega arith) in
            rw (r, register_hashed)
              (rw c (
                ap (keep (λ x. x.role == lit "admin")) kept ∙ admins_kept,
                omega (arith, longer, ap length kept),
              ))
      ]
    ]

register_user-Same :
    (crypto : Crypto) (drawn : Drawn) (body : Option (Text × Text)) (db : Accounts)
    → 1 ≤ length db.users
    → Same db (register_user crypto drawn body db).1
unfolding register_user
register_user-Same crypto drawn none db h = (refl, omega arith)
register_user-Same crypto drawn (some (email, password)) db h =
    elim (Bool-cases ((email == []) || (password == []))) [
      | inl t ↦ rw (t, register_user) (refl, omega arith)
      | inr f ↦ elim (Bool-cases (ltb (length password) 6)) [
        | inl t ↦ rw (f, register_user) (rw t (refl, omega arith))
        | inr g ↦ elim (Option-cases (crypto.generate_from_password password)) [
          | inl n ↦ rw (f, register_user) (rw g (rw n (refl, omega arith)))
          | inr (hash, q) ↦
              rw (f, register_user)
                (rw g (rw q (register_hashed-Same crypto drawn email hash db h)))
        ]
      ]
    ]

perform-Same :
    (crypto : Crypto) (request : ApiRequest) (db : Accounts)
    → IsPlain request
    → 1 ≤ length db.users
    → Same db (perform crypto request db).1
unfolding perform
perform-Same crypto (registers drawn body) db p h = register_user-Same crypto drawn body db h
perform-Same crypto (logs_in drawn body) db p h =
    Same-users db (login crypto drawn body db).1 (login-users crypto drawn body db)
perform-Same crypto (makes_token drawn caller_id name) db p h =
    Same-users db (handle_create_token crypto drawn caller_id name db).1
      (handle_create_token-users crypto drawn caller_id name db)
perform-Same crypto (revokes_token caller_id id now) db p h =
    Same-users db (handle_revoke_token caller_id id now db).1
      (handle_revoke_token-users caller_id id now db)
perform-Same crypto (updates_user role id req now) db p h =
    Same-users db (handle_update_user role id req now db).1
      (handle_update_user-refused role id req now db p)

-- The requests one after another.
unfoldable pub perform_all : Crypto → List ApiRequest → Accounts → Accounts
perform_all crypto [] db = db
perform_all crypto (r ∷ rs) db = perform_all crypto rs (perform crypto r db).1

-- Once there is a user, no requests of callers who are not admins make or unmake an admin.
pub perform_all-admins :
    (crypto : Crypto) (requests : List ApiRequest) (db : Accounts)
    → All IsPlain requests
    → 1 ≤ length db.users
    → admins (perform_all crypto requests db) ≡ admins db
unfolding perform_all
perform_all-admins crypto [] db p h = refl
perform_all-admins crypto (r ∷ rs) db p h =
    let same = perform-Same crypto r db p.0 h in
    perform_all-admins crypto rs (perform crypto r db).1 p.1 (omega (arith, same.1)) ∙ same.0
