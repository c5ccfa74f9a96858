-- ===== src/Authz/Decision.antt =====
-- How the loop of `CanAccess` (backend/internal/gateway/authorizer.go) decides.
use reflow_gateway.Base.{
  ◌≡◌, refl, sym, subst, ap, ◌⊎◌, inl, inr, Bool, true, false, List, [], ◌∷◌, ◌++◌, All, Bool-cases,
  arith,
}
use reflow_gateway.Base.Int.{◌≤ℤ◌}
use reflow_gateway.Base.Text.{Text, lit, ◌==◌}
use reflow_gateway.Policy.{AuthorizationPolicy, IsRanked}
use reflow_gateway.Authz.{Env, Identity, applies, decide}

module _ (env : Env) (who : Identity) (resource_type resource_name : Text) where
  abbrev pub Applies : AuthorizationPolicy → Type 0
  Applies p = applies env who resource_type resource_name p ≡ true

  abbrev pub Passed : AuthorizationPolicy → Type 0
  Passed p = applies env who resource_type resource_name p ≡ false

  -- A deciding policy: the ones before it do not apply, and none that applies ranks above it.
  pub record Deciding (ps : List AuthorizationPolicy) (p : AuthorizationPolicy) : Type 0 where
    pub before : List AuthorizationPolicy
    pub after : List AuthorizationPolicy
    pub split : ps ≡ before ++ p ∷ after
    pub passed : All Passed before
    pub applied : Applies p
    pub highest : All (λ q. Applies q → q.priority ≤ℤ p.priority) ps

  abbrev pub DecidedBy : List AuthorizationPolicy → Bool × Text → Type 0
  DecidedBy ps answer =
      (All Passed ps × (answer ≡ (false, [])))
      ⊎ ((p : AuthorizationPolicy) × Deciding ps p × (answer ≡ (p.effect == lit "allow", p.name)))

  All-weaken :
      (p : AuthorizationPolicy) (ps : List AuthorizationPolicy)
      → All (λ q. q.priority ≤ℤ p.priority) ps
      → All (λ q. Applies q → q.priority ≤ℤ p.priority) ps
  All-weaken p [] h = tt
  All-weaken p (q ∷ qs) h = (λ _. h.0, All-weaken p qs h.1)

  step-DecidedBy :
      (q : AuthorizationPolicy) (ps : List AuthorizationPolicy)
      → Passed q
      → DecidedBy ps (decide env who resource_type resource_name ps)
      → DecidedBy (q ∷ ps) (decide env who resource_type resource_name ps)
  step-DecidedBy q ps e (inl (none_apply, answer)) = inl ((e, none_apply), answer)
  step-DecidedBy q ps e (inr (p, d, answer)) = inr (
    p,
    record {
      before = q ∷ d.before;
      after = d.after;
      split = ap (◌∷◌ q) d.split;
      passed = (e, d.passed);
      applied = d.applied;
      highest = (λ h. cc, d.highest);
    },
    answer,
  )

  decide_skip :
      (p : AuthorizationPolicy) (ps : List AuthorizationPolicy)
      → Passed p
      → decide env who resource_type resource_name (p ∷ ps)
        ≡ decide env who resource_type resource_name ps
  unfolding decide
  decide_skip p ps e = rw e

  decide_applied :
      (p : AuthorizationPolicy) (ps : List AuthorizationPolicy)
      → Applies p
      → decide env who resource_type resource_name (p ∷ ps) ≡ (p.effect == lit "allow", p.name)
  unfolding decide
  decide_applied p ps e = rw e

  head-Deciding :
      (p : AuthorizationPolicy) (ps : List AuthorizationPolicy)
      → Applies p
      → All (λ q. q.priority ≤ℤ p.priority) ps
      → Deciding (p ∷ ps) p
  head-Deciding p ps e r = record {
    before = [];
    after = ps;
    split = refl;
    passed = tt;
    applied = e;
    highest = (λ _. omega arith, All-weaken p ps r);
  }

  -- On policies in order of priority, either no policy applies and the answer is deny, or the
  -- answer is the effect of a policy that applies, before which none applies, and no policy that
  -- applies has a higher priority.
  pub decide-DecidedBy :
      (ps : List AuthorizationPolicy)
      → IsRanked ps
      → DecidedBy ps (decide env who resource_type resource_name ps)
  unfolding decide
  decide-DecidedBy [] r = inl (tt, refl)
  decide-DecidedBy (p ∷ ps) r = elim (Bool-cases (applies env who resource_type resource_name p)) [
    | inl e ↦ inr (p, head-Deciding p ps e r.0, decide_applied p ps e)
    | inr e ↦
        subst (DecidedBy (p ∷ ps)) (sym (decide_skip p ps e))
          (step-DecidedBy p ps e (decide-DecidedBy ps r.1))
  ]
