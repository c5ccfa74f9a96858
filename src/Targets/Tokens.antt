-- ===== src/Targets/Tokens.antt =====
-- Which token a session uses: ResolveTokenForTarget of backend/internal/database/repository.go.
use reflow_gateway.Base.{
  ◌≡◌, refl, sym, ◌∙◌, ap, ◌≢◌, inl, inr, true, not, ◌&&◌, Option, none, some, List, [], ◌∷◌, ◌++◌,
  Bool-cases, Option-cases, arith, if◌then◌else◌,
}
use reflow_gateway.Base.Text.{Text, lit, ◌==◌, ==_iff, ==_refl}
use reflow_gateway.Base.Results.{Result, ok, err, not_found}
use reflow_gateway.Targets.{
  Target, TargetToken, TokenInfo, Secrets, find_token, upsert_token, out_of_reach,
  get_user_target_token, get_role_target_token, get_group_target_token, get_target_by_id,
  set_user_target_token, or_next, token_info, row_or_not_found, first_group_token, default_token,
  resolve_token_for_target,
}

-- The tokens that the tables hold for a session and a target, the most specific first.
abbrev pub offered : Text → Option TargetToken → List TokenInfo
offered source none = []
offered source (some row) = record { token = row.encrypted_token; source = source } ∷ []

abbrev pub group_offers : Secrets → List Text → Text → List TokenInfo
group_offers db [] target_id = []
group_offers db (group ∷ groups) target_id =
    offered (lit "group") (find_token group target_id db.group_target_tokens)
    ++ group_offers db groups target_id

abbrev pub default_offers : Option Text → List TokenInfo
default_offers none = []
default_offers (some token) =
    if token == [] then [] else record { token = token; source = lit "default" } ∷ []

abbrev pub role_offers : Secrets → Text → Text → List TokenInfo
role_offers db role target_id =
    if role == []
    then []
    else offered (lit "role") (find_token role target_id db.role_target_tokens)

abbrev pub offers : Secrets → Text → Text → List Text → Target → Text → List TokenInfo
offers db user_id role groups target target_id =
    offered (lit "user") (find_token user_id target_id db.user_target_tokens)
    ++ (role_offers db role target_id
        ++ (group_offers db groups target_id ++ default_offers target.default_encrypted_token))

abbrev pub first {ℓ} : {A : Type ℓ} → List A → Option A
first [] = none
first (x ∷ xs) = some x

or_next-first {ℓ} :
    {A : Type ℓ} (xs ys : List A)
    → or_next (row_or_not_found (first xs)) (row_or_not_found (first ys))
      ≡ row_or_not_found (first (xs ++ ys))
or_next-first [] ys = refl
or_next-first (x ∷ xs) ys = refl

token_info-offered :
    (source : Text) (row : Option TargetToken)
    → token_info source (row_or_not_found row) ≡ row_or_not_found (first (offered source row))
token_info-offered source none = refl
token_info-offered source (some row) = refl

module _ (db : Secrets) (up : db.reachable ≡ true) where
  user_row :
      (user_id target_id : Text)
      → get_user_target_token db user_id target_id
        ≡ row_or_not_found (find_token user_id target_id db.user_target_tokens)
  unfolding get_user_target_token
  user_row user_id target_id = rw up refl

  role_step :
      (role target_id : Text)
      → (if not (role == [])
          then token_info (lit "role") (get_role_target_token db role target_id)
          else err not_found)
        ≡ row_or_not_found (first (role_offers db role target_id))
  unfolding get_role_target_token
  role_step role target_id = elim (Bool-cases (role == [])) [
    | inl e ↦ rw e refl
    | inr e ↦
        rw (e, up)
          (token_info-offered (lit "role") (find_token role target_id db.role_target_tokens))
  ]

  group_row :
      (group target_id : Text)
      → get_group_target_token db group target_id
        ≡ row_or_not_found (find_token group target_id db.group_target_tokens)
  unfolding get_group_target_token
  group_row group target_id = rw up refl

  first_group_token-offers :
      (groups : List Text) (target_id : Text)
      → first_group_token db groups target_id
        ≡ row_or_not_found (first (group_offers db groups target_id))
  unfolding first_group_token
  first_group_token-offers [] target_id = refl
  first_group_token-offers (group ∷ groups) target_id =
      rw
        (
          group_row group target_id,
          first_group_token-offers groups target_id,
          token_info-offered (lit "group") (find_token group target_id db.group_target_tokens),
        )
        (or_next-first (offered (lit "group") (find_token group target_id db.group_target_tokens))
          (group_offers db groups target_id))

default_token-offers :
    (target : Target)
    → default_token target
      ≡ row_or_not_found (first (default_offers target.default_encrypted_token))
unfolding default_token
default_token-offers target = elim (Option-cases target.default_encrypted_token) [
  | inl e ↦ rw e refl
  | inr (token, e) ↦
      rw e (elim (Bool-cases (token == [])) [ inl q ↦ rw q refl | inr q ↦ rw q refl ])
]

-- On a reachable database that has the target, the token is the first of those that the tables
-- hold, in the order user, role (if there is one), each group as listed, and the target's default
-- if it is not empty; if they hold none it is not found. That is the order of the code and of its
-- comment; website/docs/credential-management.md has the groups before the role.
pub resolve_token_for_target-offers :
    (db : Secrets) (user_id role : Text) (groups : List Text) (target_id : Text) (target : Target)
    → db.reachable ≡ true
    → get_target_by_id db target_id ≡ ok target
    → resolve_token_for_target db user_id role groups target_id
      ≡ row_or_not_found (first (offers db user_id role groups target target_id))
unfolding resolve_token_for_target
resolve_token_for_target-offers db user_id role groups target_id target up has_target =
    let user = offered (lit "user") (find_token user_id target_id db.user_target_tokens) in
    let role_rows = role_offers db role target_id in
    let group_rows = group_offers db groups target_id in
    let default_rows = default_offers target.default_encrypted_token in
    rw
      (
        user_row db up user_id target_id,
        token_info-offered (lit "user") (find_token user_id target_id db.user_target_tokens),
        role_step db up role target_id,
        first_group_token-offers db up groups target_id,
        has_target,
        default_token-offers target,
        or_next-first group_rows default_rows,
        or_next-first role_rows (group_rows ++ default_rows),
      )
      (or_next-first user (role_rows ++ (group_rows ++ default_rows)))

-- The row that an update leaves for its owner.
find_token-upsert_token :
    (owner target_id token : Text) (ts : List TargetToken)
    → (row : TargetToken) × (find_token owner target_id (upsert_token owner target_id token ts)
        ≡ some row)
      × (row.encrypted_token ≡ token)
unfolding find_token upsert_token
find_token-upsert_token owner target_id token [] = (
  record { owner = owner; target_id = target_id; encrypted_token = token },
  rw (==_refl owner, ==_refl target_id) refl,
  refl,
)
find_token-upsert_token owner target_id token (t ∷ ts) =
    elim (Bool-cases (t.owner == owner && t.target_id == target_id)) [
      | inl e ↦ rw e (record t { encrypted_token = token }, rw e refl, refl)
      | inr e ↦
          let (row, found, same) = find_token-upsert_token owner target_id token ts in
          rw e (row, rw e found, same)
    ]

find_token-others :
    (owner target_id token other wanted : Text) (ts : List TargetToken)
    → other ≢ owner
    → find_token other wanted (upsert_token owner target_id token ts) ≡ find_token other wanted ts
unfolding find_token upsert_token
find_token-others owner target_id token other wanted [] ne = ground (arith, ==_iff owner other)
find_token-others owner target_id token other wanted (t ∷ ts) ne = ground (
  arith,
  ==_iff t.owner owner,
  ==_iff t.owner other,
  find_token-others owner target_id token other wanted ts ne,
)

user_first :
    (db : Secrets) (user_id role : Text) (groups : List Text) (target_id : Text) (row : TargetToken)
    → db.reachable ≡ true
    → find_token user_id target_id db.user_target_tokens ≡ some row
    → resolve_token_for_target db user_id role groups target_id
      ≡ ok (record { token = row.encrypted_token; source = lit "user" })
unfolding resolve_token_for_target
user_first db user_id role groups target_id row up e = rw (user_row db up user_id target_id, e) refl

-- What resolving reads of the other tables.
first_group_token_same :
    (db db' : Secrets) (groups : List Text) (target_id : Text)
    → db.reachable ≡ db'.reachable
    → db.group_target_tokens ≡ db'.group_target_tokens
    → first_group_token db groups target_id ≡ first_group_token db' groups target_id
unfolding first_group_token get_group_target_token
first_group_token_same db db' [] target_id r g = refl
first_group_token_same db db' (group ∷ groups) target_id r g =
    rw (first_group_token_same db db' groups target_id r g, r, g) refl

resolve_token_for_target_same :
    (db db' : Secrets) (user_id role : Text) (groups : List Text) (target_id : Text)
    → get_user_target_token db user_id target_id ≡ get_user_target_token db' user_id target_id
    → get_role_target_token db role target_id ≡ get_role_target_token db' role target_id
    → first_group_token db groups target_id ≡ first_group_token db' groups target_id
    → get_target_by_id db target_id ≡ get_target_by_id db' target_id
    → resolve_token_for_target db user_id role groups target_id
      ≡ resolve_token_for_target db' user_id role groups target_id
unfolding resolve_token_for_target
resolve_token_for_target_same db db' user_id role groups target_id u r g t = rw (u, r, g, t) refl

pub set_user_rows :
    (db : Secrets) (user_id target_id token : Text)
    → db.reachable ≡ true
    → (set_user_target_token db user_id target_id token).1 ≡ record db {
      user_target_tokens = upsert_token user_id target_id token db.user_target_tokens;
    }
unfolding set_user_target_token
set_user_rows db user_id target_id token up =
    let changed : Secrets = record db {
      user_target_tokens = upsert_token user_id target_id token db.user_target_tokens;
    } in
    ap
      (λ b.
        (if◌then◌else◌ {A = Result (Unit {0}) × Secrets} b (ok tt, changed) (out_of_reach, db)).1)
      up

-- On a reachable database, a token that is set for a user on a target is the one that the user's
-- sessions then use there, whatever their role and groups, and no other user's token for any
-- target changes.
pub resolve_token_for_target-set_user_target_token :
    (db : Secrets) (user_id target_id token : Text)
    → db.reachable ≡ true
    → ((role : Text) (groups : List Text)
        → resolve_token_for_target
            (set_user_target_token db user_id target_id token).1
            user_id
            role
            groups
            target_id
          ≡ ok (record { token = token; source = lit "user" }))
      × ((other role : Text) (groups : List Text) (wanted : Text)
          → other ≢ user_id
          → resolve_token_for_target
              (set_user_target_token db user_id target_id token).1
              other
              role
              groups
              wanted
            ≡ resolve_token_for_target db other role groups wanted)
resolve_token_for_target-set_user_target_token db user_id target_id token up =
    let rows = upsert_token user_id target_id token db.user_target_tokens in
    let db' : Secrets = record db { user_target_tokens = rows } in
    rw (set_user_rows db user_id target_id token up) (
      λ role groups.
          let (row, found, same) =
            find_token-upsert_token user_id target_id token db.user_target_tokens in
          user_first db' user_id role groups target_id row up found
          ∙ ap (λ t. ok (record { token = t; source = lit "user" })) same,
      λ other role groups wanted ne.
          resolve_token_for_target_same db' db other role groups wanted
            (user_row db' up other wanted
              ∙ ap row_or_not_found
                  (find_token-others user_id target_id token other wanted db.user_target_tokens ne)
              ∙ sym (user_row db up other wanted))
            (unfold get_role_target_token in refl)
            (first_group_token_same db' db groups wanted refl refl)
            (unfold get_target_by_id in refl),
    )
