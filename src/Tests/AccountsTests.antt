-- ===== src/Tests/AccountsTests.antt =====
-- One account, registered first, and a second one.
use reflow_gateway.Base.{◌≡◌, refl, arith, true, false, none, some, List, [], ◌∷◌, ◌++◌}
use reflow_gateway.Base.Text.{lit, ◌==◌}
use reflow_gateway.Base.Results.{ok, err}
use reflow_gateway.Auth.{Verifier, passed, authenticate}
use reflow_gateway.Accounts.{
  Account, Accounts, count_users, create_user, find_user, account_by_email, account_by_id,
  update_user, store_user, already_exists, create_api_token,
}
use reflow_gateway.Accounts.Handlers.{
  Crypto, Drawn, signed_in, claims_of, register_user, login, sign_in, admit, register_hashed,
}
use reflow_gateway.Accounts.Signed.{authenticate-login}
use reflow_gateway.Accounts.Roles.{
  admins, ApiRequest, registers, updates_user, perform_all, perform_all-admins,
}

abbrev empty : Accounts
empty = record { users = []; tokens = record { api_tokens = []; reachable = true } }

abbrev root : Account
root = record {
  id = lit "u1";
  email = lit "a@b";
  password_hash = lit "secret";
  role = lit "admin";
  groups = [];
  created_at = 1;
  updated_at = 1;
}

abbrev one : Accounts
one = record { users = root ∷ []; tokens = record { api_tokens = []; reachable = true } }

abbrev drawn : Drawn
drawn = record { user_id = lit "u1"; token_id = lit "k1"; jti = lit "j1"; now = 1 }

-- A password is its own hash, and every token the same text.
abbrev crypto : Crypto
crypto = record {
  generate_from_password = λ password. some password;
  compare_hash = λ hash password. hash == password;
  sign = λ claims. some (lit "t");
}

abbrev verifier : Verifier
verifier = record {
  validate_token = λ token. some (claims_of root (lit "j1"));
  parse_uuid = λ id. some id;
}

-- The first who registers is an admin.
first :
    (register_user crypto drawn (some (lit "a@b", lit "secret")) empty).0
    ≡ signed_in 201 root (lit "t")
unfolding register_user register_hashed count_users create_user find_user account_by_id update_user
    store_user create_api_token sign_in admit lit ◌==◌
first = refl

logged_in :
    (login crypto drawn (some (lit "a@b", lit "secret")) one).0 ≡ signed_in 200 root (lit "t")
unfolding login account_by_email find_user sign_in create_api_token lit ◌==◌
logged_in = refl

-- A JTI that a token has already is refused.
taken :
    (create_api_token
      (lit "k2")
      (lit "u1")
      (lit "j1")
      (lit "n")
      2
      (create_api_token (lit "k1") (lit "u1") (lit "j1") (lit "n") 1 one).1).0
    ≡ err already_exists
unfolding create_api_token lit ◌==◌
taken = refl

authenticate-login_example :
    (account_by_email one (lit "a@b") ≡ ok root)
    × ((root.password_hash == lit "secret") ≡ true)
    × ((authenticate verifier
          (login crypto drawn (some (lit "a@b", lit "secret")) one).1.tokens
          5
          (lit "Bearer" ++ (b' ' ∷ lit "t"))
          []).0
        ≡ passed (lit "u1") (claims_of root (lit "j1")))
authenticate-login_example =
    authenticate-login verifier crypto drawn (lit "a@b") (lit "secret") root (lit "t") [] 200 5 one
      (λ e. refl) refl logged_in

abbrev requests : List ApiRequest
requests =
    registers (record drawn { user_id = lit "u2" }) (some (lit "c@d", lit "secret"))
    ∷ updates_user (lit "user") (some (lit "u2"))
        (some (record { role = some (lit "admin"); groups = none })) 2
    ∷ []

plain : (lit "user" == lit "admin") ≡ false
unfolding lit ◌==◌
plain = refl

perform_all-admins_example : admins (perform_all crypto requests one) ≡ admins one
perform_all-admins_example = perform_all-admins crypto requests one (tt, (plain, tt)) (omega arith)
