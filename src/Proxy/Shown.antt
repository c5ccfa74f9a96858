-- ===== src/Proxy/Shown.antt =====
-- What the targets of a session add to a listing: listTarget and its loop in
-- backend/internal/gateway/proxy.go.
use mathlib.Core.List.{flat_map}
use reflow_gateway.Base.{
  ◌≡◌, refl, sym, ◌∙◌, ap, inl, inr, Bool, true, false, some, List, [], ◌∷◌, ◌++◌, map, keep,
  append-nil, append_assoc, Bool-cases, All,
}
use reflow_gateway.Base.Text.{Text}
use reflow_gateway.Base.Maps.{Map}
use reflow_gateway.Base.Results.{ok, err, ◌>>=◌, Result-cases}
use reflow_gateway.Authz.{Env, Identity, Authorizer, decide, granted}
use reflow_gateway.Authz.Cache.{IsCoherent, IsTarget, can_access-IsCoherent}
use reflow_gateway.Mcp.{McpClient}
use reflow_gateway.Session.{Session, get_target_id}
use reflow_gateway.Proxy.{
  Kind, Listing, identity, check_access, target_id_of, display_name, list_item, list_items,
  list_target, list_targets,
}

-- The answer of a decision on the repository's policies.
abbrev pub may_use : Env → Identity → Text → Text → Text → Bool
may_use env who target_id resource_type name = granted (
    env.get_policies_for_target (some target_id)
    >>= (λ ps. ok (decide env who resource_type name ps)))

target_id_of-same :
    (r s : Session) (target_name : Text)
    → r.target_ids ≡ s.target_ids
    → target_id_of r target_name ≡ target_id_of s target_name
unfolding target_id_of get_target_id
target_id_of-same r s target_name e = rw e

module _ {A : Type 0} (env : Env) (kind : Kind A) (multiplexing : Bool) (s : Session) where
  abbrev show_item : Text → A → A
  show_item target_name item =
      kind.renamed item (display_name multiplexing target_name (kind.name_of item))

  -- What one target adds: the items that the session's identity may use, renamed, in order.
  abbrev pub shown_by : Text × McpClient → List A
  shown_by (target_name, client) = elim (kind.fetch client) [
    | err e ↦ []
    | ok items ↦ map (show_item target_name) (
        keep
          (λ item.
            may_use env (identity s) (target_id_of s target_name) kind.resource_type
              (kind.name_of item))
          items)
  ]

  -- A state of the loop: the session has the identity and the targets of `s`, the cache of the
  -- authorizer is coherent.
  pub record Inv (l : Listing A) : Type 0 where
    pub same_identity : identity l.session ≡ identity s
    pub same_targets : l.session.target_ids ≡ s.target_ids
    pub authorizer : Authorizer
    pub auth_on : l.auth ≡ some authorizer
    pub coherent : IsCoherent env authorizer

  -- Remembering a mapping leaves the identity and the targets.
  module _
      (keeps : (r : Session) (shown target_id target_name name : Text)
        → (identity (kind.remember r shown target_id target_name name) ≡ identity r)
          × ((kind.remember r shown target_id target_name name).target_ids ≡ r.target_ids)) where
    check_access-may_use :
        (l : Listing A) (target_id name : Text)
        → Inv l
        → IsTarget (some target_id)
        → ((check_access env l.auth l.session target_id kind.resource_type name).0
            ≡ may_use env (identity s) target_id kind.resource_type name)
          × ((a : Authorizer) × ((check_access env l.auth l.session target_id kind.resource_type
                  name).1
                ≡ some a)
              × IsCoherent env a)
    unfolding check_access
    check_access-may_use l target_id name v proper =
        let (answer, coherent) =
          can_access-IsCoherent env v.authorizer v.coherent (identity s) (some target_id)
            kind.resource_type name proper in
        rw (v.auth_on, v.same_identity) (ap granted answer, (_, refl, coherent))

    list_item_allowed :
        (target_name target_id : Text) (item : A) (l : Listing A)
        → (check_access env l.auth l.session target_id kind.resource_type (kind.name_of item)).0
          ≡ true
        → list_item env kind multiplexing target_name target_id item l ≡ record {
          items = l.items ++ show_item target_name item ∷ [];
          session =
              kind.remember l.session
                (display_name multiplexing target_name (kind.name_of item))
                target_id
                target_name
                (kind.name_of item);
          auth =
              (check_access env l.auth l.session target_id kind.resource_type
                (kind.name_of item)).1;
        }
    unfolding list_item
    list_item_allowed target_name target_id item l e = rw e

    list_item_refused :
        (target_name target_id : Text) (item : A) (l : Listing A)
        → (check_access env l.auth l.session target_id kind.resource_type (kind.name_of item)).0
          ≡ false
        → list_item env kind multiplexing target_name target_id item l ≡ record l {
          auth =
              (check_access env l.auth l.session target_id kind.resource_type
                (kind.name_of item)).1;
        }
    unfolding list_item
    list_item_refused target_name target_id item l e = rw e

    abbrev may_item : Text → A → Bool
    may_item target_id i = may_use env (identity s) target_id kind.resource_type (kind.name_of i)

    abbrev Grown : Listing A → List A → Listing A → Type 0
    Grown l more l' = (l'.items ≡ l.items ++ more) × Inv l'

    list_item-shown :
        (target_name target_id : Text) (item : A) (l : Listing A)
        → IsTarget (some target_id)
        → Inv l
        → Grown l
            (map (show_item target_name) (keep (may_item target_id) (item ∷ [])))
            (list_item env kind multiplexing target_name target_id item l)
    list_item-shown target_name target_id item l proper v =
        let (decided, (a, on, coherent)) =
          check_access-may_use l target_id (kind.name_of item) v proper in
        elim (Bool-cases (may_item target_id item)) [
          | inl e ↦ rw e (
              rw (list_item_allowed target_name target_id item l (decided ∙ e)) (
                refl,
                record {
                  same_identity = (keeps l.session _ target_id target_name _).0 ∙ v.same_identity;
                  same_targets = (keeps l.session _ target_id target_name _).1 ∙ v.same_targets;
                  authorizer = a;
                  auth_on = on;
                  coherent = coherent;
                },
              ))
          | inr e ↦ rw e (
              rw (list_item_refused target_name target_id item l (decided ∙ e)) (
                sym (append-nil l.items),
                record {
                  same_identity = v.same_identity;
                  same_targets = v.same_targets;
                  authorizer = a;
                  auth_on = on;
                  coherent = coherent;
                },
              ))
        ]

    shown_cons :
        (target_name target_id : Text) (item : A) (items : List A)
        → map (show_item target_name) (keep (may_item target_id) (item ∷ items))
          ≡ map (show_item target_name) (keep (may_item target_id) (item ∷ []))
            ++ map (show_item target_name) (keep (may_item target_id) items)
    shown_cons target_name target_id item items = elim (Bool-cases (may_item target_id item)) [
      | inl e ↦ rw e
      | inr e ↦ rw e
    ]

    list_items-shown :
        (target_name target_id : Text) (items : List A) (l : Listing A)
        → IsTarget (some target_id)
        → Inv l
        → Grown l
            (map (show_item target_name) (keep (may_item target_id) items))
            (list_items env kind multiplexing target_name target_id items l)
    unfolding list_items
    list_items-shown target_name target_id [] l proper v = (sym (append-nil l.items), v)
    list_items-shown target_name target_id (item ∷ items) l proper v =
        let l' = list_item env kind multiplexing target_name target_id item l in
        let (one, v') = list_item-shown target_name target_id item l proper v in
        let (rest, v'') = list_items-shown target_name target_id items l' proper v' in
        (
          rest
              ∙ ap (λ xs. xs ++ map (show_item target_name) (keep (may_item target_id) items)) one
              ∙ append_assoc l.items _ _
              ∙ ap (◌++◌ l.items) (sym (shown_cons target_name target_id item items)),
          v'',
        )

    list_target-shown :
        (arrival : Text × McpClient) (l : Listing A)
        → IsTarget (some (target_id_of s arrival.0))
        → Inv l
        → Grown l (shown_by arrival) (list_target env kind multiplexing arrival l)
    unfolding list_target
    list_target-shown (target_name, client) l proper v =
        let same = target_id_of-same l.session s target_name v.same_targets in
        elim (Result-cases (kind.fetch client)) [
          | inl (x, e) ↦ rw (e, list_target, shown_by) (sym (append-nil l.items), v)
          | inr (items, e) ↦
              rw (e, list_target, shown_by)
                (rw same
                  (list_items-shown target_name (target_id_of s target_name) items l proper v))
        ]

    pub list_targets-shown :
        (arrivals : Map McpClient) (l : Listing A)
        → All (λ e. IsTarget (some (target_id_of s e.0))) arrivals
        → Inv l
        → Grown l (flat_map shown_by arrivals) (list_targets env kind multiplexing arrivals l)
    unfolding list_targets flat_map
    list_targets-shown [] l proper v = (sym (append-nil l.items), v)
    list_targets-shown (arrival ∷ arrivals) l proper v =
        let l' = list_target env kind multiplexing arrival l in
        let (one, v') = list_target-shown arrival l proper.0 v in
        let (rest, v'') = list_targets-shown arrivals l' proper.1 v' in
        (
          rest
              ∙ ap (λ xs. xs ++ flat_map shown_by arrivals) one
              ∙ append_assoc l.items (shown_by arrival) (flat_map shown_by arrivals),
          v'',
        )
