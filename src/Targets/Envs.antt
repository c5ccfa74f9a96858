-- ===== src/Targets/Envs.antt =====
-- Which environment config a session uses: ResolveEnvConfigsForTarget of
-- backend/internal/database/repository.go.
use reflow_gateway.Base.{
  ◌≡◌, refl, sym, ◌∙◌, subst, inl, inr, true, false, ◌&&◌, Option, none, some, List, [], ◌∷◌,
  Bool-cases, Option-cases, keep, if◌then◌else◌,
}
use reflow_gateway.Base.Text.{Text, lit, ◌==◌}
use reflow_gateway.Base.Maps.{Map, lookup, insert, lookup-insert}
use reflow_gateway.Base.Results.{ok}
use reflow_gateway.Targets.{
  TargetEnvConfig, EnvConfigInfo, Secrets, same_value, get_env_configs, env_config_info,
  put_configs, put_group_configs, with_groups, with_role, resolve_env_configs_for_target,
}

-- The first that is there.
infixr 40 ◌<|>◌
abbrev pub ◌<|>◌ {ℓ} : {A : Type ℓ} → Option A → Option A → Option A
none <|> other = other
some a <|> other = some a

<|>-assoc {ℓ} : {A : Type ℓ} (a b c : Option A) → ((a <|> b) <|> c) ≡ (a <|> (b <|> c))
<|>-assoc none b c = refl
<|>-assoc (some a) b c = refl

-- The last row of a scope that sets a key, as the session sees it.
abbrev pub set_by : Text → Text → Text → List TargetEnvConfig → Option EnvConfigInfo
set_by key source scope_value [] = none
set_by key source scope_value (c ∷ cs) =
    set_by key source scope_value cs
    <|> (if c.env_key == key then some (env_config_info source scope_value c) else none)

-- The rows of a scope.
abbrev pub scope : Secrets → Text → Text → Option Text → List TargetEnvConfig
scope db target_id scope_type scope_value =
    keep
      (λ c.
        c.target_id == target_id
        && c.scope_type == scope_type
        && same_value c.scope_value scope_value)
      db.target_env_configs

abbrev pub set_by_groups : Secrets → Text → Text → List Text → Option EnvConfigInfo
set_by_groups db target_id key [] = none
set_by_groups db target_id key (group ∷ groups) =
    set_by_groups db target_id key groups
    <|> set_by key (lit "group") group (scope db target_id (lit "group") (some group))

abbrev pub set_by_role : Secrets → Text → Text → Text → Option EnvConfigInfo
set_by_role db target_id key role =
    if role == []
    then none
    else set_by key (lit "role") role (scope db target_id (lit "role") (some role))

-- The user's config, or that of the last group that has one, or the role's, or the default.
abbrev pub effective : Secrets → Text → Text → Text → List Text → Text → Option EnvConfigInfo
effective db target_id user_id role groups key =
    set_by key (lit "user") user_id (scope db target_id (lit "user") (some user_id))
    <|> (set_by_groups db target_id key groups
        <|> (set_by_role db target_id key role
            <|> set_by key (lit "default") [] (scope db target_id (lit "default") none)))

lookup-put_configs :
    (source scope_value key : Text) (cs : List TargetEnvConfig) (m : Map EnvConfigInfo)
    → lookup key (put_configs source scope_value cs m)
      ≡ (set_by key source scope_value cs <|> lookup key m)
unfolding put_configs
lookup-put_configs source scope_value key [] m = refl
lookup-put_configs source scope_value key (c ∷ cs) m =
    rw
      (
        lookup-put_configs source scope_value key cs
            (insert c.env_key (env_config_info source scope_value c) m),
        lookup-insert c.env_key key (env_config_info source scope_value c) m,
        <|>-assoc (set_by key source scope_value cs)
            (if c.env_key == key then some (env_config_info source scope_value c) else none)
            (lookup key m),
      )
      (elim (Bool-cases (c.env_key == key)) [ inl e ↦ rw e refl | inr e ↦ rw e refl ])

-- No entry that a user has set.
abbrev pub HasNoUser : Map EnvConfigInfo → Type 0
HasNoUser m =
    (key : Text) (info : EnvConfigInfo)
    → lookup key m ≡ some info
    → (info.source == lit "user") ≡ false

insert-HasNoUser :
    (name : Text) (new : EnvConfigInfo) (m : Map EnvConfigInfo)
    → (new.source == lit "user") ≡ false
    → HasNoUser m
    → HasNoUser (insert name new m)
insert-HasNoUser name new m ne h key info e = elim (Bool-cases (name == key)) [
  | inl q ↦
      let found : some new ≡ some info = sym (lookup-insert name key new m ∙ rw q refl) ∙ e in
      let same : new ≡ info = cc found in subst (λ i. (i.source == lit "user") ≡ false) same ne
  | inr q ↦ h key info (sym (lookup-insert name key new m ∙ rw q refl) ∙ e)
]

put_configs-HasNoUser :
    (source scope_value : Text) (cs : List TargetEnvConfig) (m : Map EnvConfigInfo)
    → (source == lit "user") ≡ false
    → HasNoUser m
    → HasNoUser (put_configs source scope_value cs m)
unfolding put_configs
put_configs-HasNoUser source scope_value [] m ne h = h
put_configs-HasNoUser source scope_value (c ∷ cs) m ne h =
    put_configs-HasNoUser source scope_value cs
      (insert c.env_key (env_config_info source scope_value c) m) ne
      (insert-HasNoUser c.env_key (env_config_info source scope_value c) m
        (unfold env_config_info in ne) h)

group_not_user : (lit "group" == lit "user") ≡ false
unfolding lit ◌==◌
group_not_user = refl

role_not_user : (lit "role" == lit "user") ≡ false
unfolding lit ◌==◌
role_not_user = refl

default_not_user : (lit "default" == lit "user") ≡ false
unfolding lit ◌==◌
default_not_user = refl

-- Without a user's entry a group's rows are put as those of any scope.
put_group_configs-put_configs :
    (group : Text) (cs : List TargetEnvConfig) (m : Map EnvConfigInfo)
    → HasNoUser m
    → put_group_configs group cs m ≡ put_configs (lit "group") group cs m
unfolding put_group_configs put_configs
put_group_configs-put_configs group [] m h = refl
put_group_configs-put_configs group (c ∷ cs) m h =
    let new = env_config_info (lit "group") group c in
    let rest =
      put_group_configs-put_configs group cs (insert c.env_key new m)
        (insert-HasNoUser c.env_key new m (unfold env_config_info in group_not_user) h) in
    elim (Option-cases (lookup c.env_key m)) [
      | inl e ↦ rw e rest
      | inr (existing, e) ↦ rw (e, h c.env_key existing e) rest
    ]

with_groups-effective :
    (db : Secrets) (target_id : Text) (groups : List Text) (m : Map EnvConfigInfo)
    → db.reachable ≡ true
    → HasNoUser m
    → (m' : Map EnvConfigInfo) × (with_groups db target_id groups m ≡ ok m')
      × ((key : Text) → lookup key m' ≡ (set_by_groups db target_id key groups <|> lookup key m))
unfolding with_groups get_env_configs
with_groups-effective db target_id [] m up h = (m, refl, λ key. refl)
with_groups-effective db target_id (group ∷ groups) m up h =
    let rows = scope db target_id (lit "group") (some group) in
    let (m', run, found) =
      with_groups-effective db target_id groups (put_configs (lit "group") group rows m) up
        (put_configs-HasNoUser (lit "group") group rows m group_not_user h) in
    (
      m',
      rw (up, put_group_configs-put_configs group rows m h) run,
      λ key.
          found key
          ∙ rw
              (
                lookup-put_configs (lit "group") group key rows m,
                <|>-assoc (set_by_groups db target_id key groups)
                    (set_by key (lit "group") group rows) (lookup key m),
              )
              refl,
    )

with_role-effective :
    (db : Secrets) (target_id role : Text) (m : Map EnvConfigInfo)
    → db.reachable ≡ true
    → HasNoUser m
    → (m' : Map EnvConfigInfo) × (with_role db target_id role m ≡ ok m')
      × ((key : Text) → lookup key m' ≡ (set_by_role db target_id key role <|> lookup key m))
      × HasNoUser m'
unfolding with_role get_env_configs
with_role-effective db target_id role m up h = elim (Bool-cases (role == [])) [
  | inl e ↦ rw e (m, refl, λ key. refl, h)
  | inr e ↦
      let rows = scope db target_id (lit "role") (some role) in
      rw (e, up)
        (
          put_configs (lit "role") role rows m,
          refl,
          λ key. lookup-put_configs (lit "role") role key rows m,
          put_configs-HasNoUser (lit "role") role rows m role_not_user h,
        )
]

<|>-none {ℓ} : {A : Type ℓ} (a : Option A) → (a <|> none) ≡ a
<|>-none none = refl
<|>-none (some a) = refl

get_env_configs-scope :
    (db : Secrets) (target_id scope_type : Text) (scope_value : Option Text)
    → db.reachable ≡ true
    → get_env_configs db target_id scope_type scope_value
      ≡ ok (scope db target_id scope_type scope_value)
unfolding get_env_configs
get_env_configs-scope db target_id scope_type scope_value up = rw up refl

resolve_steps :
    (db : Secrets) (target_id user_id role : Text) (groups : List Text) (m1 m2 : Map EnvConfigInfo)
    → db.reachable ≡ true
    → with_role db target_id role
        (put_configs (lit "default") [] (scope db target_id (lit "default") none) [])
      ≡ ok m1
    → with_groups db target_id groups m1 ≡ ok m2
    → resolve_env_configs_for_target db target_id user_id role groups
      ≡ ok (put_configs (lit "user") user_id (scope db target_id (lit "user") (some user_id)) m2)
unfolding resolve_env_configs_for_target
resolve_steps db target_id user_id role groups m1 m2 up run1 run2 =
    rw
      (
        get_env_configs-scope db target_id (lit "default") none up,
        run1,
        run2,
        get_env_configs-scope db target_id (lit "user") (some user_id) up,
      )
      refl

-- On a reachable database the resolved configs are, key by key, the user's, or else that of the
-- last of the groups that has one, or else the role's (if there is a role), or else the default.
pub resolve_env_configs_for_target-effective :
    (db : Secrets) (target_id user_id role : Text) (groups : List Text)
    → db.reachable ≡ true
    → (m : Map EnvConfigInfo) × (resolve_env_configs_for_target db target_id user_id role groups
        ≡ ok m)
      × ((key : Text) → lookup key m ≡ effective db target_id user_id role groups key)
resolve_env_configs_for_target-effective db target_id user_id role groups up =
    let defaults = scope db target_id (lit "default") none in
    let m0 = put_configs (lit "default") [] defaults [] in
    let (m1, run1, found1, clean1) = with_role-effective db target_id role m0 up (
      put_configs-HasNoUser (lit "default") [] defaults [] default_not_user
        (unfold lookup in λ k info e. cc)) in
    let (m2, run2, found2) = with_groups-effective db target_id groups m1 up clean1 in
    let users = scope db target_id (lit "user") (some user_id) in
    (
      put_configs (lit "user") user_id users m2,
      resolve_steps db target_id user_id role groups m1 m2 up run1 run2,
      λ key.
          rw
            (
              lookup-put_configs (lit "user") user_id key users m2,
              found2 key,
              found1 key,
              lookup-put_configs (lit "default") [] key defaults [],
            )
            (unfold lookup in rw (<|>-none (set_by key (lit "default") [] defaults)) refl),
    )
