-- ===== src/Auth/Tokens.antt =====
-- Which tokens are good: backend/internal/auth/middleware.go.
use mathlib.Core.Option
use reflow_gateway.Base.{
  ℕ, ◌≡◌, refl, ◌∙◌, ap, subst, inl, inr, true, ◌&&◌, none, some, List, [], ◌∷◌, map, any,
  Bool-cases, Option-cases, arith,
}
use reflow_gateway.Base.Text.{Text, lit, ◌==◌, ==_refl}
use reflow_gateway.Base.Results.{ok, not_found, failure, Result-cases}
use reflow_gateway.Auth.{
  ApiToken, TokenTable, Claims, Verifier, passed, refused, find_api_token, get_api_token_by_jti,
  revoke_now, revoke_api_token, token_of, check_row, authenticate,
}

-- A good token: its claims check, its row is there and not revoked, and its user id parses.
pub record IsGood (v : Verifier) (db : TokenTable) (token user_id : Text) (claims : Claims)
    : Type 0 where
  pub validated : v.validate_token token ≡ some claims
  pub row : ApiToken
  pub stored : get_api_token_by_jti db claims.jti ≡ ok row
  pub unrevoked : row.revoked_at ≡ none
  pub identified : v.parse_uuid claims.user_id ≡ some user_id

check_row_passed :
    (v : Verifier) (db : TokenTable) (now : ℕ) (claims claims' : Claims) (row : ApiToken)
    (user_id : Text)
    → (check_row v db now claims row).0 ≡ passed user_id claims'
    → (row.revoked_at ≡ none) × (v.parse_uuid claims.user_id ≡ some user_id) × (claims ≡ claims')
unfolding check_row
check_row_passed v db now claims claims' row user_id h = elim (Option-cases row.revoked_at) [
  | inr (at_time, e) ↦ cc (rw e at h)
  | inl e ↦ elim (Option-cases (v.parse_uuid claims.user_id)) [
    | inl q ↦ cc (rw (e, q) at h)
    | inr (u, q) ↦
        let same : passed u claims ≡ passed user_id claims' = rw (e, q) at h in
        (e, q ∙ ap some (cc same), cc same)
  ]
]

-- A request passes only with a good token, in its header or query: the user and the claims that it
-- goes on with are the token's.
pub authenticate-IsGood :
    (v : Verifier) (db : TokenTable) (now : ℕ) (header query user_id : Text) (claims : Claims)
    → (authenticate v db now header query).0 ≡ passed user_id claims
    → (token : Text) × (token_of header query ≡ ok token) × IsGood v db token user_id claims
unfolding authenticate
authenticate-IsGood v db now header query user_id claims h =
    elim (Result-cases (token_of header query)) [
      | inl (e, q) ↦ cc (rw (q, authenticate) at h)
      | inr (token, q) ↦ elim (Option-cases (v.validate_token token)) [
        | inl a ↦ cc (rw (q, a, authenticate) at h)
        | inr (c, a) ↦ elim (Result-cases (get_api_token_by_jti db c.jti)) [
          | inl (not_found, b) ↦ cc (rw (q, a, b, authenticate) at h)
          | inl (failure m, b) ↦ cc (rw (q, a, b, authenticate) at h)
          | inr (row, b) ↦
              let (live, parsed, same) =
                check_row_passed v db now c claims row user_id (rw (q, a, b, authenticate) at h) in
              (
                token,
                q,
                subst (IsGood v db token user_id) same (record {
                  validated = a;
                  row = row;
                  stored = b;
                  unrevoked = live;
                  identified = parsed;
                }),
              )
        ]
      ]
    ]

find_api_token-revoke_now :
    (jti id user_id : Text) (now : ℕ) (ts : List ApiToken)
    → find_api_token jti (map (revoke_now id user_id now) ts)
      ≡ Option.map (revoke_now id user_id now) (find_api_token jti ts)
unfolding find_api_token
find_api_token-revoke_now jti id user_id now [] = refl
find_api_token-revoke_now jti id user_id now (t ∷ ts) =
    ground (arith, find_api_token-revoke_now jti id user_id now ts)

-- The row that is revoked is one that the statement finds.
any_row :
    (jti id user_id : Text) (row : ApiToken) (ts : List ApiToken)
    → find_api_token jti ts ≡ some row
    → row.id ≡ id
    → row.user_id ≡ user_id
    → any (λ t. t.id == id && t.user_id == user_id) ts ≡ true
unfolding find_api_token
any_row jti id user_id row [] e i u = cc
any_row jti id user_id row (t ∷ ts) e i u = elim (Bool-cases (t.jti == jti)) [
  | inl q ↦ let same : t ≡ row = cc (rw q at e) in rw (same, i, u, ==_refl id, ==_refl user_id) refl
  | inr q ↦ ground (arith, any_row jti id user_id row ts (rw q at e) i u)
]

revoked_row :
    (db : TokenTable) (jti id user_id : Text) (now : ℕ) (row : ApiToken)
    → db.reachable ≡ true
    → find_api_token jti db.api_tokens ≡ some row
    → row.id ≡ id
    → row.user_id ≡ user_id
    → get_api_token_by_jti (revoke_api_token db id user_id now).1 jti
      ≡ ok (record row { revoked_at = some now })
unfolding get_api_token_by_jti revoke_api_token
revoked_row db jti id user_id now row up e i u =
    rw
      (
        up,
        any_row jti id user_id row db.api_tokens e i u,
        find_api_token-revoke_now jti id user_id now db.api_tokens,
        e,
        i,
        u,
        ==_refl id,
        ==_refl user_id,
      )
      refl

check_row_revoked :
    (v : Verifier) (db : TokenTable) (now at_time : ℕ) (claims : Claims) (row : ApiToken)
    → row.revoked_at ≡ some at_time
    → (check_row v db now claims row).0 ≡ refused 401 (lit "Token has been revoked")
unfolding check_row
check_row_revoked v db now at_time claims row e = rw e refl

-- On a reachable database, once a user has revoked a token of theirs, every request that carries a
-- valid token with its JTI is refused as revoked, whenever it comes.
pub authenticate-revoke_api_token :
    (v : Verifier) (db : TokenTable) (id user_id token : Text) (now later : ℕ) (header query : Text)
    (claims : Claims) (row : ApiToken)
    → db.reachable ≡ true
    → find_api_token claims.jti db.api_tokens ≡ some row
    → row.id ≡ id
    → row.user_id ≡ user_id
    → token_of header query ≡ ok token
    → v.validate_token token ≡ some claims
    → (authenticate v (revoke_api_token db id user_id now).1 later header query).0
      ≡ refused 401 (lit "Token has been revoked")
unfolding authenticate
authenticate-revoke_api_token v db id user_id token now later header query claims row up e i u t c =
    rw (t, c, revoked_row db claims.jti id user_id now row up e i u, authenticate)
      (check_row_revoked v (revoke_api_token db id user_id now).1 later now claims
        (record row { revoked_at = some now }) refl)
