-- ===== src/Accounts/Signed.antt =====
-- A token that was just issued lets its bearer in: registration and login against
-- backend/internal/auth/middleware.go.
use reflow_gateway.Base.{
  ℕ, ◌≡◌, refl, sym, ◌∙◌, ap, arith, true, false, Bool-cases, inl, inr, none, some, Option-cases,
  List, [], ◌∷◌, ◌++◌, any,
}
use reflow_gateway.Base.Text.{Text, lit, ◌==◌, ==_refl, cut}
use reflow_gateway.Base.Results.{Result-cases, ok, not_found, failure}
use reflow_gateway.Auth.{
  ApiToken, TokenTable, Claims, Verifier, passed, find_api_token, get_api_token_by_jti, lower,
  token_of, check_row, authenticate,
}
use reflow_gateway.Accounts.{Account, Accounts, create_api_token, new_token, account_by_email}
use reflow_gateway.Accounts.Handlers.{Crypto, Drawn, signed_in, claims_of, sign_in, login}

find_api_token-append :
    (jti : Text) (ts : List ApiToken) (t : ApiToken)
    → find_api_token jti ts ≡ none
    → t.jti ≡ jti
    → find_api_token jti (ts ++ t ∷ []) ≡ some t
unfolding find_api_token
find_api_token-append jti [] t n e = rw (e, ==_refl jti) refl
find_api_token-append jti (x ∷ ts) t n e = ground (arith, find_api_token-append jti ts t, n, e)

token_of-bearer : (token query : Text) → token_of (lit "Bearer" ++ (b' ' ∷ token)) query ≡ ok token
unfolding token_of lit ◌==◌ cut lower
token_of-bearer token query = refl

find_api_token-none :
    (jti : Text) (ts : List ApiToken)
    → any (λ t. t.jti == jti) ts ≡ false
    → find_api_token jti ts ≡ none
unfolding find_api_token
find_api_token-none jti [] h = refl
find_api_token-none jti (t ∷ ts) h = ground (arith, find_api_token-none jti ts)

-- What a token that is stored says of the tables.
create_api_token-stored :
    (id user_id jti name : Text) (now : ℕ) (db : Accounts) (row : ApiToken)
    → (create_api_token id user_id jti name now db).0 ≡ ok row
    → (any (λ t. t.jti == jti) db.tokens.api_tokens ≡ false)
      × ((create_api_token id user_id jti name now db).1.tokens.reachable ≡ true)
      × ((create_api_token id user_id jti name now db).1.tokens.api_tokens
          ≡ db.tokens.api_tokens ++ new_token id user_id jti name now ∷ [])
unfolding create_api_token
create_api_token-stored id user_id jti name now db row h = elim (Bool-cases db.tokens.reachable) [
  | inr down ↦ cc (rw (down, create_api_token) at h)
  | inl up ↦ elim (Bool-cases (any (λ t. t.jti == jti) db.tokens.api_tokens)) [
    | inl taken ↦ cc (rw (up, taken, create_api_token) at h)
    | inr new ↦ elim (Bool-cases (any (λ u. u.id == user_id) db.users)) [
      | inr gone ↦ cc (rw (up, new, gone, create_api_token) at h)
      | inl known ↦ (new, ground (arith, up, new, known), ground (arith, up, new, known))
    ]
  ]
]

-- What sign_in answers with, it has stored.
sign_in-stored :
    (crypto : Crypto) (drawn : Drawn) (name : Text) (status : ℕ) (u v : Account) (token : Text)
    (code : ℕ) (db : Accounts)
    → (sign_in crypto drawn name status u db).0 ≡ signed_in code v token
    → (v ≡ u)
      × (crypto.sign (claims_of u drawn.jti) ≡ some token)
      × (any (λ t. t.jti == drawn.jti) db.tokens.api_tokens ≡ false)
      × ((sign_in crypto drawn name status u db).1.tokens.reachable ≡ true)
      × ((sign_in crypto drawn name status u db).1.tokens.api_tokens
          ≡ db.tokens.api_tokens ++ new_token drawn.token_id u.id drawn.jti name drawn.now ∷ [])
unfolding sign_in
sign_in-stored crypto drawn name status u v token code db h =
    elim (Option-cases (crypto.sign (claims_of u drawn.jti))) [
      | inl n ↦ let h' = rw (n, sign_in) at h in cc
      | inr (signed, t) ↦
          let h' = rw (t, sign_in) at h in
          elim (Result-cases (create_api_token drawn.token_id u.id drawn.jti name drawn.now db).0) [
            | inr (row, made) ↦
                let (new, still, rows) =
                  create_api_token-stored drawn.token_id u.id drawn.jti name drawn.now db row
                    made in
                let h'' = rw made at h' in
                let account : v ≡ u = cc in
                let text : signed ≡ token = cc in
                (
                  account,
                  t ∙ ap some text,
                  new,
                  rw (t, sign_in) (rw made still),
                  rw (t, sign_in) (rw made rows),
                )
            | inl (e, made) ↦ let h'' = rw made at h' in cc
          ]
    ]

check_row-unrevoked :
    (v : Verifier) (db : TokenTable) (now : ℕ) (claims : Claims) (row : ApiToken) (user_id : Text)
    → row.revoked_at ≡ none
    → v.parse_uuid claims.user_id ≡ some user_id
    → (check_row v db now claims row).0 ≡ passed user_id claims
unfolding check_row
check_row-unrevoked v db now claims row user_id n p = rw (n, check_row) (rw p refl)

get_api_token_by_jti-found :
    (db : TokenTable) (jti : Text) (row : ApiToken)
    → db.reachable ≡ true
    → find_api_token jti db.api_tokens ≡ some row
    → get_api_token_by_jti db jti ≡ ok row
unfolding get_api_token_by_jti
get_api_token_by_jti-found db jti row up f = rw (up, get_api_token_by_jti) (rw f refl)

authenticate-good :
    (v : Verifier) (db : TokenTable) (now : ℕ) (token query : Text) (claims : Claims)
    (row : ApiToken) (user_id : Text)
    → v.validate_token token ≡ some claims
    → get_api_token_by_jti db claims.jti ≡ ok row
    → row.revoked_at ≡ none
    → v.parse_uuid claims.user_id ≡ some user_id
    → (authenticate v db now (lit "Bearer" ++ (b' ' ∷ token)) query).0 ≡ passed user_id claims
unfolding authenticate
authenticate-good v db now token query claims row user_id valid stored n p =
    rw (token_of-bearer token query, authenticate)
      (rw valid (rw stored (check_row-unrevoked v db now claims row user_id n p)))

login-sign_in :
    (crypto : Crypto) (drawn : Drawn) (email password : Text) (u : Account) (token : Text)
    (code : ℕ) (db : Accounts)
    → (login crypto drawn (some (email, password)) db).0 ≡ signed_in code u token
    → (account_by_email db email ≡ ok u)
      × (crypto.compare_hash u.password_hash password ≡ true)
      × (login crypto drawn (some (email, password)) db
          ≡ sign_in crypto drawn (lit "Login") 200 u db)
unfolding login
login-sign_in crypto drawn email password u token code db h =
    elim (Result-cases (account_by_email db email)) [
      | inl (not_found, r) ↦ let h' = rw (r, login) at h in cc
      | inl (failure m, r) ↦ let h' = rw (r, login) at h in cc
      | inr (w, r) ↦
          let h' = rw (r, login) at h in
          elim (Bool-cases (crypto.compare_hash w.password_hash password)) [
            | inl t ↦
                let h'' = rw t at h' in
                let same =
                  (sign_in-stored crypto drawn (lit "Login") 200 w u token code db h'').0 in
                (
                  r ∙ ap ok (sym same),
                  ap (λ x. crypto.compare_hash x.password_hash password) same ∙ t,
                  rw (r, login)
                      (rw t (λ i. sign_in crypto drawn (lit "Login") 200 (sym same i) db)),
                )
            | inr f ↦ let h'' = rw f at h' in cc
          ]
    ]

-- Who logs in is let in: an answer with a token means that the password is that of the account
-- with the email, and, the token tables being as the login leaves them, a request that bears the
-- token goes on with the account's id, role and groups, if the
-- token checks as the claims it was signed for, and the account's id is a UUID.
pub authenticate-login :
    (v : Verifier) (crypto : Crypto) (drawn : Drawn) (email password : Text) (u : Account)
    (token query : Text) (code now : ℕ) (db : Accounts)
    → (crypto.sign (claims_of u drawn.jti) ≡ some token
        → v.validate_token token ≡ some (claims_of u drawn.jti))
    → v.parse_uuid u.id ≡ some u.id
    → (login crypto drawn (some (email, password)) db).0 ≡ signed_in code u token
    → (account_by_email db email ≡ ok u)
      × (crypto.compare_hash u.password_hash password ≡ true)
      × ((authenticate v
            (login crypto drawn (some (email, password)) db).1.tokens
            now
            (lit "Bearer" ++ (b' ' ∷ token))
            query).0
          ≡ passed u.id (claims_of u drawn.jti))
authenticate-login v crypto drawn email password u token query code now db signs parses h =
    let (known, right, same) = login-sign_in crypto drawn email password u token code db h in
    let (_, signed, new, up, stored) =
      sign_in-stored crypto drawn (lit "Login") 200 u u token code db
        (ap (λ r. r.0) (sym same) ∙ h) in
    let row = new_token drawn.token_id u.id drawn.jti (lit "Login") drawn.now in
    let found =
      ap (find_api_token drawn.jti) stored
      ∙ find_api_token-append drawn.jti db.tokens.api_tokens row
          (find_api_token-none drawn.jti db.tokens.api_tokens new) refl in
    rw same (
      known,
      right,
      authenticate-good v (sign_in crypto drawn (lit "Login") 200 u db).1.tokens now token query
          (claims_of u drawn.jti) row u.id (signs signed)
          (get_api_token_by_jti-found _ drawn.jti row up found) refl parses,
    )
