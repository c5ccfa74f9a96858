-- ===== src/Tests/AuthzTests.antt =====
-- The authorizer at concrete policies.
use reflow_gateway.Base.{◌≡◌, refl, true, false, Option, some, [], ◌∷◌, Any}
use reflow_gateway.Base.Text.{Text, lit, ◌==◌}
use reflow_gateway.Base.Maps.{lookup}
use reflow_gateway.Base.Results.{ok, ◌>>=◌}
use reflow_gateway.Policy.Store.{
  subjects_of, with_subjects, selected, place, order_by_priority, get_policies_for_target,
}
use reflow_gateway.Policy.Store.Ranked.{policies, policies-IsRanked}
use reflow_gateway.Authz.{
  Env, Authorizer, new_authorizer, matches_subject, pattern_matches, applies, decide, load_policies,
  can_access, filter_tools, filter_resources, filter_prompts,
}
use reflow_gateway.Authz.Filter.{granted_names, filters-granted}
use reflow_gateway.Authz.Decision.{DecidedBy, decide-DecidedBy}
use reflow_gateway.Authz.Enforced.{Permits, can_access_sound}
use reflow_gateway.Authz.Cache.{
  IsCoherent, IsTarget, new_authorizer-IsCoherent, can_access-IsCoherent, can_access_stale,
}
use reflow_gateway.Tests.Fixtures.{exact_match, tables, env, plain_user}

abbrev t1 : Option Text
t1 = some (lit "t1")

t1-IsTarget : IsTarget t1
unfolding lit
t1-IsTarget e = cc

read_allowed :
    (can_access env new_authorizer plain_user t1 (lit "tool") (lit "read")).0
    ≡ ok (true, lit "Default Allow All")
unfolding can_access load_policies get_policies_for_target lookup order_by_priority place selected
    with_subjects subjects_of decide applies matches_subject pattern_matches ◌==◌ lit
read_allowed = refl

drop_denied :
    (can_access env new_authorizer plain_user t1 (lit "tool") (lit "drop")).0
    ≡ ok (false, lit "No Drop")
unfolding can_access load_policies get_policies_for_target lookup order_by_priority place selected
    with_subjects subjects_of decide applies matches_subject pattern_matches ◌==◌ lit
drop_denied = refl

can_access_sound_example :
    Any
      (λ row.
        (row.name ≡ lit "Default Allow All")
        × Permits exact_match tables plain_user t1 (lit "tool") (lit "read") row)
      tables.authorization_policies
can_access_sound_example =
    can_access_sound exact_match tables plain_user new_authorizer t1 (lit "tool") (lit "read")
      (lit "Default Allow All") (new_authorizer-IsCoherent env) t1-IsTarget read_allowed

decide-DecidedBy_example :
    DecidedBy env plain_user
      (lit "tool")
      (lit "drop")
      (policies tables t1)
      (decide env plain_user (lit "tool") (lit "drop") (policies tables t1))
decide-DecidedBy_example =
    decide-DecidedBy env plain_user (lit "tool") (lit "drop") (policies tables t1)
      (policies-IsRanked tables t1)

can_access-IsCoherent_example :
    ((can_access env new_authorizer plain_user t1 (lit "tool") (lit "drop")).0
      ≡ env.get_policies_for_target t1
        >>= (λ ps. ok (decide env plain_user (lit "tool") (lit "drop") ps)))
    × IsCoherent env (can_access env new_authorizer plain_user t1 (lit "tool") (lit "drop")).1
can_access-IsCoherent_example =
    can_access-IsCoherent env new_authorizer (new_authorizer-IsCoherent env) plain_user t1
      (lit "tool") (lit "drop") t1-IsTarget

-- The cache after a first decision.
abbrev warm : Authorizer
warm = (can_access env new_authorizer plain_user t1 (lit "tool") (lit "read")).1

-- The tables with no policy left.
abbrev emptied : Env
emptied = record env { get_policies_for_target = λ _. ok [] }

-- The tables with no policy left for the target `t1`.
-- With every policy gone, the read is still granted.
can_access_stale_example :
    (can_access emptied warm plain_user t1 (lit "tool") (lit "read")).0
    ≡ ok (true, lit "Default Allow All")
unfolding decide order_by_priority place selected with_subjects subjects_of applies matches_subject
    pattern_matches ◌==◌ lit load_policies get_policies_for_target lookup
can_access_stale_example =
    (can_access_stale env emptied new_authorizer plain_user plain_user (lit "t1") (lit "tool")
      (lit "read") (lit "tool") (lit "read") (policies tables t1) t1-IsTarget refl).0

filters-granted_example :
    ((filter_tools env new_authorizer plain_user (lit "t1") (lit "read" ∷ lit "drop" ∷ [])).0
      ≡ granted_names env plain_user (lit "t1") (lit "tool") (lit "read" ∷ lit "drop" ∷ []))
    × ((filter_resources env new_authorizer plain_user (lit "t1") (lit "read" ∷ lit "drop" ∷ [])).0
        ≡ granted_names env plain_user (lit "t1") (lit "resource") (lit "read" ∷ lit "drop" ∷ []))
    × ((filter_prompts env new_authorizer plain_user (lit "t1") (lit "read" ∷ lit "drop" ∷ [])).0
        ≡ granted_names env plain_user (lit "t1") (lit "prompt") (lit "read" ∷ lit "drop" ∷ []))
filters-granted_example =
    filters-granted env plain_user (lit "t1") t1-IsTarget new_authorizer
      (lit "read" ∷ lit "drop" ∷ []) (new_authorizer-IsCoherent env)
