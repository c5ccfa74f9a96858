-- ===== src/Authz/Cache.antt =====
-- The policy cache of backend/internal/gateway/authorizer.go.
use reflow_gateway.Base.{
  ◌≡◌, refl, sym, ◌∙◌, ap, inl, inr, ◌≢◌, Option, some, none, List, Bool-cases, Option-cases, arith,
}
use reflow_gateway.Base.Text.{Text, lit, ◌==◌, ==_iff}
use reflow_gateway.Base.Maps.{lookup, insert, lookup-insert, lookup-insert_self, lookup-delete}
use reflow_gateway.Base.Results.{ok, err, ◌>>=◌, Result-cases}
use reflow_gateway.Policy.{AuthorizationPolicy}
use reflow_gateway.Authz.{
  Env, Identity, Authorizer, new_authorizer, can_access, load_policies, decide, cache_key,
  invalidate_cache_for_target,
}

-- A UUID's text is never the word under which the global policies are cached.
abbrev pub IsTarget : Option Text → Type 0
IsTarget none = Unit
IsTarget (some target_id) = target_id ≢ lit "global"

cache_key-injective :
    (s t : Option Text) → IsTarget s → IsTarget t → cache_key s ≡ cache_key t → s ≡ t
unfolding cache_key
cache_key-injective none none hs ht e = refl
cache_key-injective none (some t) hs ht e = absurd (ht (sym e))
cache_key-injective (some s) none hs ht e = absurd (hs e)
cache_key-injective (some s) (some t) hs ht e = ap some e

-- Every cached list is what the repository would answer now.
abbrev pub IsCoherent : Env → Authorizer → Type 0
IsCoherent env a =
    (t : Option Text) (ps : List AuthorizationPolicy)
    → IsTarget t
    → lookup (cache_key t) a.policy_cache ≡ some ps
    → env.get_policies_for_target t ≡ ok ps

module _ (env : Env) (a : Authorizer) (t : Option Text) where
  load_policies_hit :
      (ps : List AuthorizationPolicy)
      → lookup (cache_key t) a.policy_cache ≡ some ps
      → load_policies env a t ≡ (ok ps, a)
  unfolding load_policies
  load_policies_hit ps e = rw (e, load_policies)

  load_policies_miss :
      (ps : List AuthorizationPolicy)
      → lookup (cache_key t) a.policy_cache ≡ none
      → env.get_policies_for_target t ≡ ok ps
      → load_policies env a t
        ≡ (ok ps, record a { policy_cache = insert (cache_key t) ps a.policy_cache })
  unfolding load_policies
  load_policies_miss ps e h = ground (arith, e, h)

  load_policies_fail :
      {e : _}
      → lookup (cache_key t) a.policy_cache ≡ none
      → env.get_policies_for_target t ≡ err e
      → load_policies env a t ≡ (err e, a)
  unfolding load_policies
  load_policies_fail e h = ground (arith, e, h)

  can_access-load :
      (who : Identity) (rt rn : Text)
      → can_access env a who t rt rn ≡ (
        (load_policies env a t).0 >>= (λ ps. ok (decide env who rt rn ps)),
        (load_policies env a t).1,
      )
  unfolding can_access
  can_access-load who rt rn = ground (arith, Result-cases (load_policies env a t).0)

-- The empty cache is coherent with every repository.
pub new_authorizer-IsCoherent : (env : Env) → IsCoherent env new_authorizer
unfolding lookup
new_authorizer-IsCoherent env t ps proper found = cc

-- A repository that answers as the cache holds answers in its place.
module _ (env : Env) (a : Authorizer) (coherent : IsCoherent env a) where
  load_coherent :
      (t : Option Text) → IsTarget t → (load_policies env a t).0 ≡ env.get_policies_for_target t
  load_coherent t proper = elim (Option-cases (lookup (cache_key t) a.policy_cache)) [
    | inr (ps, e) ↦ rw (load_policies_hit env a t ps e) (sym (coherent t ps proper e))
    | inl e ↦ elim (Result-cases (env.get_policies_for_target t)) [
      | inl (x, h) ↦ rw (load_policies_fail env a t e h) (sym h)
      | inr (ps, h) ↦ rw (load_policies_miss env a t ps e h) (sym h)
    ]
  ]

  insert-IsCoherent :
      (t : Option Text) (ps : List AuthorizationPolicy)
      → IsTarget t
      → env.get_policies_for_target t ≡ ok ps
      → IsCoherent env (record a { policy_cache = insert (cache_key t) ps a.policy_cache })
  insert-IsCoherent t ps proper h s qs proper' found =
      elim (Bool-cases (cache_key t == cache_key s)) [
        | inl e ↦
            let same = cache_key-injective t s proper proper' ((==_iff _ _).0 e) in
            ground (arith, same, lookup-insert (cache_key t) (cache_key s) ps a.policy_cache)
        | inr e ↦
            coherent s qs proper'
              (ground (arith, lookup-insert (cache_key t) (cache_key s) ps a.policy_cache))
      ]

  load-IsCoherent : (t : Option Text) → IsTarget t → IsCoherent env (load_policies env a t).1
  load-IsCoherent t proper = elim (Option-cases (lookup (cache_key t) a.policy_cache)) [
    | inr (ps, e) ↦ rw (load_policies_hit env a t ps e) coherent
    | inl e ↦ elim (Result-cases (env.get_policies_for_target t)) [
      | inl (x, h) ↦ rw (load_policies_fail env a t e h) coherent
      | inr (ps, h) ↦ rw (load_policies_miss env a t ps e h) (insert-IsCoherent t ps proper h)
    ]
  ]

  -- With a coherent cache and a target id that is not the text `global`, a decision is the one on
  -- the policies that the repository holds, an error of the repository is passed on, and the cache
  -- stays coherent.
  pub can_access-IsCoherent :
      (who : Identity) (t : Option Text) (rt rn : Text)
      → IsTarget t
      → ((can_access env a who t rt rn).0
          ≡ env.get_policies_for_target t >>= (λ ps. ok (decide env who rt rn ps)))
        × IsCoherent env (can_access env a who t rt rn).1
  can_access-IsCoherent who t rt rn proper =
      rw (can_access-load env a t who rt rn) (rw (load_coherent t proper), load-IsCoherent t proper)

cached_after_load :
    (env : Env) (a : Authorizer) (t : Option Text) (ps : List AuthorizationPolicy)
    → (load_policies env a t).0 ≡ ok ps
    → lookup (cache_key t) (load_policies env a t).1.policy_cache ≡ some ps
cached_after_load env a t ps loaded = elim (Option-cases (lookup (cache_key t) a.policy_cache)) [
  | inr (qs, e) ↦ rw (load_policies_hit env a t qs e) (cc (load_policies_hit env a t qs e))
  | inl e ↦ elim (Result-cases (env.get_policies_for_target t)) [
    | inl (x, h) ↦ cc (load_policies_fail env a t e h)
    | inr (qs, h) ↦
        rw (load_policies_miss env a t qs e h) (
          cc
            (load_policies_miss env a t qs e h, lookup-insert_self (cache_key t) qs a.policy_cache))
  ]
]

-- A decision from a cached list, over any repository.
decide_cached :
    (env : Env) (a : Authorizer) (who : Identity) (t : Option Text) (rt rn : Text)
    (ps : List AuthorizationPolicy)
    → lookup (cache_key t) a.policy_cache ≡ some ps
    → (can_access env a who t rt rn).0 ≡ ok (decide env who rt rn ps)
decide_cached env a who t rt rn ps e =
    rw (can_access-load env a t who rt rn) (rw (load_policies_hit env a t ps e))

kept_by_global :
    (a : Authorizer) (t : Text)
    → t ≢ lit "global"
    → lookup (cache_key (some t)) (invalidate_cache_for_target a none).policy_cache
      ≡ lookup (cache_key (some t)) a.policy_cache
unfolding invalidate_cache_for_target cache_key
kept_by_global a t named =
    ground (arith, lookup-delete (lit "global") t a.policy_cache, ==_iff (lit "global") t)

-- Once the policies of a target are loaded, its later decisions are those on the loaded list,
-- whatever the repository holds by then, also after the invalidation that stands for a change of
-- the global policies (`InvalidateCacheForTarget(nil)`), if the target is not the global list.
pub can_access_stale :
    (env env' : Env) (a : Authorizer) (who who' : Identity) (t : Text) (rt rn rt' rn' : Text)
    (ps : List AuthorizationPolicy)
    → t ≢ lit "global"
    → (load_policies env a (some t)).0 ≡ ok ps
    → let a' = (can_access env a who (some t) rt rn).1 in
      ((can_access env' a' who' (some t) rt' rn').0 ≡ ok (decide env' who' rt' rn' ps))
      × ((can_access env' (invalidate_cache_for_target a' none) who' (some t) rt' rn').0
          ≡ ok (decide env' who' rt' rn' ps))
can_access_stale env env' a who who' t rt rn rt' rn' ps named loaded =
    let a' = (load_policies env a (some t)).1 in
    let cached = cached_after_load env a (some t) ps loaded in
    rw (can_access-load env a (some t) who rt rn) (
      decide_cached env' a' who' (some t) rt' rn' ps cached,
      decide_cached env' (invalidate_cache_for_target a' none) who' (some t) rt' rn' ps
          (kept_by_global a' t named ∙ cached),
    )
