-- ===== src/Tests/AuthTests.antt =====
-- One token, used and revoked.
use reflow_gateway.Base.{◌≡◌, refl, true, none, some, [], ◌∷◌, if◌then◌else◌}
use reflow_gateway.Base.Text.{Text, lit, ◌==◌, cut}
use reflow_gateway.Base.Results.{ok}
use reflow_gateway.Auth.{
  ApiToken, TokenTable, Claims, Verifier, passed, refused, find_api_token, get_api_token_by_jti,
  update_api_token_last_used, revoke_api_token, lower, token_of, check_row, authenticate,
}
use reflow_gateway.Auth.Tokens.{IsGood, authenticate-IsGood, authenticate-revoke_api_token}

abbrev row : ApiToken
row = record {
  id = lit "k1";
  user_id = lit "u1";
  jti = lit "j1";
  name = lit "laptop";
  last_used_at = none;
  created_at = 0;
  revoked_at = none;
}

abbrev table : TokenTable
table = record { api_tokens = row ∷ []; reachable = true }

abbrev claims : Claims
claims = record { user_id = lit "u1"; email = []; role = lit "user"; groups = []; jti = lit "j1" }

-- One text is a token, and every text a UUID.
abbrev verifier : Verifier
verifier = record {
  validate_token = λ token. if token == lit "abc" then some claims else none;
  parse_uuid = λ id. some id;
}

let_in : (authenticate verifier table 7 (lit "Bearer abc") []).0 ≡ passed (lit "u1") claims
unfolding authenticate token_of cut lower get_api_token_by_jti find_api_token check_row
    update_api_token_last_used ◌==◌ lit
let_in = refl

authenticate-IsGood_example :
    (token : Text) × (token_of (lit "Bearer abc") [] ≡ ok token)
    × IsGood verifier table token (lit "u1") claims
authenticate-IsGood_example =
    authenticate-IsGood verifier table 7 (lit "Bearer abc") [] (lit "u1") claims let_in

stored : find_api_token (lit "j1") table.api_tokens ≡ some row
unfolding find_api_token ◌==◌ lit
stored = refl

by_query : token_of [] (lit "abc") ≡ ok (lit "abc")
unfolding token_of ◌==◌ lit
by_query = refl

valid : verifier.validate_token (lit "abc") ≡ some claims
unfolding ◌==◌ lit
valid = refl

authenticate-revoke_api_token_example :
    (authenticate verifier (revoke_api_token table (lit "k1") (lit "u1") 8).1 9 [] (lit "abc")).0
    ≡ refused 401 (lit "Token has been revoked")
authenticate-revoke_api_token_example =
    authenticate-revoke_api_token verifier table (lit "k1") (lit "u1") (lit "abc") 8 9 []
      (lit "abc") claims row refl stored refl refl by_query valid
