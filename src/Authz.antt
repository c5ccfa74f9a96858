-- ===== src/Authz.antt =====
-- The authorizer: backend/internal/gateway/authorizer.go. The policy cache is explicit state,
-- and each call is one critical section of it. Spans, counters and log lines are left out.
pub mod Decision
pub mod Cache
pub mod Filter
pub mod Enforced
use reflow_gateway.Base.{
  Bool, true, false, not, ◌&&◌, Option, none, some, List, [], ◌∷◌, any, if◌then◌else◌,
}
use reflow_gateway.Base.Text.{Text, lit, ◌==◌}
use reflow_gateway.Base.Maps.{Map, lookup, insert, delete}
use reflow_gateway.Base.Results.{Result, ok, err}
use reflow_gateway.Policy.{AuthorizationPolicy, PolicySubject}

-- What the authorizer calls: Go's `regexp.MatchString`, `none` when the pattern does not compile,
-- and `Repository.GetPoliciesForTarget`.
pub record Env : Type 0 where
  pub match_string : Text → Text → Option Bool
  pub get_policies_for_target : Option Text → Result (List AuthorizationPolicy)

pub record Authorizer : Type 0 where
  pub policy_cache : Map (List AuthorizationPolicy)

-- Who asks: the session's user, role and groups.
pub record Identity : Type 0 where
  pub user_id : Text
  pub role : Text
  pub groups : List Text

abbrev pub new_authorizer : Authorizer
new_authorizer = record { policy_cache = [] }

value_is : Option Text → (Text → Bool) → Bool
value_is none test = false
value_is (some v) test = test v

-- One round of the loop of `matchesSubject`.
subject_matches : Identity → PolicySubject → Bool
unfolding value_is
subject_matches who s =
    if s.subject_type == lit "everyone"
    then true
    else if s.subject_type == lit "user"
    then value_is s.subject_value (λ v. v == who.user_id)
    else if s.subject_type == lit "role"
    then value_is s.subject_value (λ v. v == who.role)
    else if s.subject_type == lit "group"
    then value_is s.subject_value (λ v. any (λ g. g == v) who.groups)
    else false

unfoldable pub matches_subject : AuthorizationPolicy → Identity → Bool
unfolding subject_matches
matches_subject policy who = any (subject_matches who) policy.subjects

-- The pattern is tested only if the policy has one and the request names a resource.
unfoldable pub pattern_matches : Env → Option Text → Text → Bool
pattern_matches env none resource_name = true
pattern_matches env (some pattern) resource_name =
    if not (pattern == []) && not (resource_name == [])
    then elim (env.match_string pattern resource_name) [ none ↦ false | some matched ↦ matched ]
    else true

-- The guards of the loop of `CanAccess`: a policy that fails one is passed over.
unfoldable pub applies : Env → Identity → Text → Text → AuthorizationPolicy → Bool
applies env who resource_type resource_name policy =
    if not (matches_subject policy who)
    then false
    else if not (policy.resource_type == lit "all") && not (policy.resource_type == resource_type)
    then false
    else pattern_matches env policy.resource_pattern resource_name

-- The loop: the first policy that applies decides, and no policy means deny.
unfoldable pub decide : Env → Identity → Text → Text → List AuthorizationPolicy → Bool × Text
decide env who resource_type resource_name [] = (false, [])
decide env who resource_type resource_name (policy ∷ rest) =
    let later = decide env who resource_type resource_name rest in
    if applies env who resource_type resource_name policy
    then (policy.effect == lit "allow", policy.name)
    else later

unfoldable pub cache_key : Option Text → Text
cache_key none = lit "global"
cache_key (some target_id) = target_id

unfoldable pub load_policies :
    Env → Authorizer → Option Text → Result (List AuthorizationPolicy) × Authorizer
load_policies env a target_id = elim (lookup (cache_key target_id) a.policy_cache) [
  | some cached ↦ (ok cached, a)
  | none ↦ elim (env.get_policies_for_target target_id) [
    | err e ↦ (err e, a)
    | ok policies ↦ (
      ok policies,
      record a { policy_cache = insert (cache_key target_id) policies a.policy_cache },
    )
  ]
]

unfoldable pub can_access :
    Env → Authorizer → Identity → Option Text → Text → Text → Result (Bool × Text) × Authorizer
can_access env a who target_id resource_type resource_name =
    let (loaded, a') = load_policies env a target_id in
    elim loaded [
      | err e ↦ (err e, a')
      | ok policies ↦ (ok (decide env who resource_type resource_name policies), a')
    ]

unfoldable pub can_access_target :
    Env → Authorizer → Identity → Text → Result (Bool × Text) × Authorizer
can_access_target env a who target_id = can_access env a who (some target_id) (lit "all") []

unfoldable pub invalidate_cache : Authorizer → Authorizer
invalidate_cache a = record a { policy_cache = [] }

unfoldable pub invalidate_cache_for_target : Authorizer → Option Text → Authorizer
invalidate_cache_for_target a none = record a {
  policy_cache = delete (lit "global") a.policy_cache;
}
invalidate_cache_for_target a (some target_id) = record a {
  policy_cache = delete (lit "global") (delete target_id a.policy_cache);
}

-- `err == nil && canAccess`
abbrev pub granted : Result (Bool × Text) → Bool
granted (ok (allowed, _)) = allowed
granted (err e) = false

-- The loop that the three filters share.
unfoldable pub filter_names :
    Env → Authorizer → Identity → Text → Text → List Text → List Text × Authorizer
filter_names env a who target_id resource_type [] = ([], a)
filter_names env a who target_id resource_type (n ∷ names) =
    let (answer, a') = can_access env a who (some target_id) resource_type n in
    let (kept, a'') = filter_names env a' who target_id resource_type names in
    (if granted answer then n ∷ kept else kept, a'')

unfoldable pub filter_tools :
    Env → Authorizer → Identity → Text → List Text → List Text × Authorizer
filter_tools env a who target_id tools = filter_names env a who target_id (lit "tool") tools

unfoldable pub filter_resources :
    Env → Authorizer → Identity → Text → List Text → List Text × Authorizer
filter_resources env a who target_id resources =
    filter_names env a who target_id (lit "resource") resources

unfoldable pub filter_prompts :
    Env → Authorizer → Identity → Text → List Text → List Text × Authorizer
filter_prompts env a who target_id prompts = filter_names env a who target_id (lit "prompt") prompts
