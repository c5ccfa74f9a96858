-- ===== src/Authz/Filter.antt =====
-- `FilterTools`, `FilterResources` and `FilterPrompts` of
-- backend/internal/gateway/authorizer.go.
use reflow_gateway.Base.{◌≡◌, refl, some, List, [], ◌∷◌, keep}
use reflow_gateway.Base.Text.{Text, lit}
use reflow_gateway.Base.Results.{ok, ◌>>=◌}
use reflow_gateway.Authz.{
  Env, Identity, Authorizer, can_access, decide, granted, filter_names, filter_tools,
  filter_resources, filter_prompts,
}
use reflow_gateway.Authz.Cache.{IsCoherent, IsTarget, can_access-IsCoherent}

-- The names whose decision on the repository's answer is to allow.
abbrev pub granted_names : Env → Identity → Text → Text → List Text → List Text
granted_names env who target_id resource_type = keep λ n. granted (
    env.get_policies_for_target (some target_id) >>= (λ ps. ok (decide env who resource_type n ps)))

module _ (env : Env) (who : Identity) (target_id : Text) (proper : IsTarget (some target_id)) where
  filter_names-granted :
      (a : Authorizer) (resource_type : Text) (names : List Text)
      → IsCoherent env a
      → ((filter_names env a who target_id resource_type names).0
          ≡ granted_names env who target_id resource_type names)
        × IsCoherent env (filter_names env a who target_id resource_type names).1
  unfolding filter_names
  filter_names-granted a resource_type [] coherent = (refl, coherent)
  filter_names-granted a resource_type (n ∷ names) coherent =
      let (answer, coherent') =
        can_access-IsCoherent env a coherent who (some target_id) resource_type n proper in
      let (rest, coherent'') =
        filter_names-granted (can_access env a who (some target_id) resource_type n).1 resource_type
          names coherent' in
      (rw (answer, rest), coherent'')

  -- With a coherent cache and a target id that is not the text `global`, each filter keeps, in
  -- order, exactly the names that a decision on the repository's policies allows under its own
  -- resource type.
  pub filters-granted :
      (a : Authorizer) (names : List Text)
      → IsCoherent env a
      → ((filter_tools env a who target_id names).0
          ≡ granted_names env who target_id (lit "tool") names)
        × ((filter_resources env a who target_id names).0
            ≡ granted_names env who target_id (lit "resource") names)
        × ((filter_prompts env a who target_id names).0
            ≡ granted_names env who target_id (lit "prompt") names)
  unfolding filter_tools filter_resources filter_prompts
  filters-granted a names coherent = (
    (filter_names-granted a (lit "tool") names coherent).0,
    (filter_names-granted a (lit "resource") names coherent).0,
    (filter_names-granted a (lit "prompt") names coherent).0,
  )
