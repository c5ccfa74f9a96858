-- ===== src/Authz/Enforced.antt =====
-- `CanAccess` over the policy tables: backend/internal/gateway/authorizer.go with
-- backend/internal/database/repository.go.
use reflow_gateway.Base.{
  ◌≡◌, refl, sym, ap, ◌∙◌, subst, inl, inr, Bool, true, Option, ◌∷◌, All, Any, Any-append_right,
  Any-weaken, Bool-cases,
}
use reflow_gateway.Base.Int.{◌≤ℤ◌}
use reflow_gateway.Base.Text.{Text, lit, ==_iff}
use reflow_gateway.Base.Results.{ok, ◌>>=◌}
use reflow_gateway.Policy.{AuthorizationPolicy}
use reflow_gateway.Policy.Store.{Tables, with_subjects, selected, get_policies_for_target}
use reflow_gateway.Policy.Store.Ranked.{
  policies, policies-IsRanked, get_policies_reachable, get_policies_unreachable, All-policies,
  Any-policies,
}
use reflow_gateway.Authz.{Env, Identity, Authorizer, can_access, decide}
use reflow_gateway.Authz.Cache.{IsCoherent, IsTarget, can_access-IsCoherent}
use reflow_gateway.Authz.Decision.{Applies, Deciding, decide-DecidedBy}

-- The authorizer on these tables.
abbrev pub on_database : (Text → Text → Option Bool) → Tables → Env
on_database match_string t = record {
  match_string = match_string;
  get_policies_for_target = get_policies_for_target t;
}

module _ (match_string : Text → Text → Option Bool) (t : Tables) (who : Identity) where
  abbrev env : Env
  env = on_database match_string t

  module _ (target_id : Option Text) (resource_type resource_name : Text) where
    -- A row that decides in favour: it is enabled and reaches the target, it applies to the
    -- request, it allows, and no selected row that applies has a higher priority.
    pub record Permits (row : AuthorizationPolicy) : Type 0 where
      pub chosen : selected target_id row ≡ true
      pub applied : Applies env who resource_type resource_name (with_subjects t row)
      pub allows : row.effect ≡ lit "allow"
      pub highest :
          All
            (λ q.
              selected target_id q ≡ true
              → Applies env who resource_type resource_name (with_subjects t q)
              → q.priority ≤ℤ row.priority)
            t.authorization_policies

    permits :
        (p : AuthorizationPolicy)
        → Deciding env who resource_type resource_name (policies t target_id) p
        → p.effect ≡ lit "allow"
        → (row : AuthorizationPolicy) → (selected target_id row ≡ true) × (with_subjects t row ≡ p)
        → Permits row
    unfolding with_subjects
    permits p d allows row (chosen, e) = record {
      chosen = chosen;
      applied = subst (Applies env who resource_type resource_name) (sym e) d.applied;
      allows = ap (λ q. q.effect) e ∙ allows;
      highest =
          subst
            (λ z.
              All
                (λ q.
                  selected target_id q ≡ true
                  → Applies env who resource_type resource_name (with_subjects t q)
                  → q.priority ≤ℤ z)
                t.authorization_policies)
            (sym (ap (λ q. q.priority) e))
            (All-policies t target_id
              (λ q. Applies env who resource_type resource_name q → q.priority ≤ℤ p.priority)
              d.highest);
    }

    chosen_row :
        (p : AuthorizationPolicy)
        → Deciding env who resource_type resource_name (policies t target_id) p
        → p.effect ≡ lit "allow"
        → Any (λ row. (row.name ≡ p.name) × Permits row) t.authorization_policies
    unfolding with_subjects
    chosen_row p d allows =
        let chosen : Any (λ q. q ≡ p) (policies t target_id) =
          subst (Any (λ q. q ≡ p)) (sym d.split)
            (Any-append_right _ d.before (p ∷ d.after) (inl refl)) in
        Any-weaken _ _ t.authorization_policies
          (λ row h. (ap (λ q. q.name) h.1, permits p d allows row h))
          (Any-policies t target_id (λ q. q ≡ p) chosen)

  -- With a coherent cache and a target id that is not the text `global`, a request that `CanAccess`
  -- grants is permitted by a row of the tables: enabled, global or of the requested target, applying
  -- to the requester and the resource, allowing, and of the highest priority among the selected rows
  -- that apply.
  pub can_access_sound :
      (a : Authorizer) (target_id : Option Text) (resource_type resource_name name : Text)
      → IsCoherent env a
      → IsTarget target_id
      → (can_access env a who target_id resource_type resource_name).0 ≡ ok (true, name)
      → Any
          (λ row. (row.name ≡ name) × Permits target_id resource_type resource_name row)
          t.authorization_policies
  can_access_sound a target_id rt rn name coherent proper granted = elim (Bool-cases t.reachable) [
    | inr down ↦ cc (answer, get_policies_unreachable t target_id down)
    | inl up ↦
        let decided : decide env who rt rn (policies t target_id) ≡ (true, name) =
          cc (answer, get_policies_reachable t target_id up) in
        elim (decide-DecidedBy env who rt rn _ (policies-IsRanked t target_id)) [
          | inl (_, e) ↦ cc
          | inr (p, d, e) ↦
              Any-weaken _ _ t.authorization_policies (λ row h. (h.0 ∙ (cc (decided, e)), h.1))
                (chosen_row target_id rt rn p d
                  ((==_iff p.effect (lit "allow")).0 (cc (decided, e))))
        ]
  ]
    where
      answer :
          env.get_policies_for_target target_id >>= (λ ps. ok (decide env who rt rn ps))
          ≡ ok (true, name)
      answer = sym (can_access-IsCoherent env a coherent who target_id rt rn proper).0 ∙ granted
