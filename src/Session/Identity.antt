-- ===== src/Session/Identity.antt =====
-- When a session is recycled: `NeedsRecycle` of backend/internal/gateway/session.go.
use reflow_gateway.Base.{
  suc, ◌≤◌, ◌≡◌, refl, ◌∙◌, ap, ◌↔◌, inl, inr, Bool, true, false, List, [], ◌∷◌, any, length,
  Bool-cases, arith, if◌then◌else◌,
}
use reflow_gateway.Base.Text.{Text, ◌==◌, ==_iff, ==_refl}
use reflow_gateway.Session.{Session, some_missing, needs_recycle}

-- A group is in a list.
abbrev pub has : Text → List Text → Bool
has g gs = any (λ h. h == g) gs

abbrev pub IsDistinct : List Text → Type 0
IsDistinct [] = Unit
IsDistinct (g ∷ gs) = (has g gs ≡ false) × IsDistinct gs

abbrev pub Within : List Text → List Text → Type 0
Within gs hs = (g : Text) → has g gs ≡ true → has g hs ≡ true

pub some_missing_iff : (hs gs : List Text) → (some_missing hs gs ≡ false) ↔ Within gs hs
unfolding some_missing
some_missing_iff hs [] = (λ e g t. cc, λ w. refl)
some_missing_iff hs (g ∷ gs) = elim (Bool-cases (has g hs)) [
  | inl e ↦ rw e (
    λ m x t. ground (arith, ==_iff g x, (some_missing_iff hs gs).0 m x),
    λ w. (some_missing_iff hs gs).1 (λ x t. w x (ground arith)),
  )
  | inr e ↦ rw e (λ m. cc, λ w. cc (w g (rw ==_refl)))
]

-- `hs` without the first `g`.
without : Text → List Text → List Text
without g [] = []
without g (h ∷ hs) = if h == g then hs else h ∷ without g hs

length-without :
    (g : Text) (hs : List Text) → has g hs ≡ true → length hs ≡ suc (length (without g hs))
unfolding without
length-without g [] t = cc
length-without g (h ∷ hs) t = ground (arith, length-without g hs)

has-without : (g x : Text) (hs : List Text) → (x == g) ≡ false → has x (without g hs) ≡ has x hs
unfolding without
has-without g x [] ne = refl
has-without g x (h ∷ hs) ne =
    ground (arith, has-without g x hs ne, ==_iff h g, ==_iff h x, ==_iff x g)

-- Dropping one element leaves room for the other distinct ones.
Within-without :
    (g : Text) (gs hs : List Text)
    → has g gs ≡ false
    → Within (g ∷ gs) hs
    → Within gs (without g hs)
Within-without g gs hs fresh w x t = elim (Bool-cases (x == g)) [
  | inl e ↦ let same : x ≡ g = (==_iff x g).0 e in cc (ap (λ y. has y gs) same)
  | inr e ↦ has-without g x hs e ∙ w x (ground arith)
]

length-le_of_Within : (gs hs : List Text) → IsDistinct gs → Within gs hs → length gs ≤ length hs
length-le_of_Within [] hs d w = omega arith
length-le_of_Within (g ∷ gs) hs d w =
    let here = length-without g hs (w g (rw ==_refl)) in
    let rest = length-le_of_Within gs (without g hs) d.1 (Within-without g gs hs d.0 w) in
    omega arith

-- As many places as distinct elements: each place is taken.
Within-converse :
    (gs hs : List Text) → IsDistinct gs → Within gs hs → length hs ≤ length gs → Within hs gs
Within-converse [] [] d w le x t = t
Within-converse [] (h ∷ hs) d w le x t = absurd (omega arith)
Within-converse (g ∷ gs) hs d w le x t =
    let here = length-without g hs (w g (rw ==_refl)) in
    let rest =
      Within-converse gs (without g hs) d.1 (Within-without g gs hs d.0 w) (omega arith) x in
    elim (Bool-cases (x == g)) [
      | inl e ↦ ground (arith, ==_iff x g, ==_iff g x)
      | inr e ↦ ground (arith, rest (has-without g x hs e ∙ t))
    ]

pub needs_recycle_cases :
    (s : Session) (role : Text) (groups : List Text)
    → (needs_recycle s role groups ≡ false)
      ↔ ((s.role ≡ role) × (length s.groups ≡ length groups) × Within groups s.groups)
unfolding needs_recycle
needs_recycle_cases s role groups = (
  λ e. (
    ground (arith, ==_iff s.role role),
    ground arith,
    (some_missing_iff s.groups groups).0 (ground arith),
  ),
  λ h. ground (arith, ==_iff s.role role, (some_missing_iff s.groups groups).1 h.2),
)

-- For groups without repetition on both sides, no recycle is needed exactly when the role is the
-- session's and the groups are the session's as a set.
pub needs_recycle_iff :
    (s : Session) (role : Text) (groups : List Text)
    → IsDistinct s.groups
    → IsDistinct groups
    → (needs_recycle s role groups ≡ false)
      ↔ ((s.role ≡ role) × Within groups s.groups × Within s.groups groups)
needs_recycle_iff s role groups ds dg = (
  λ e.
      let c = (needs_recycle_cases s role groups).0 e in
      (c.0, c.2, Within-converse groups s.groups dg c.2 (omega arith)),
  λ h. (needs_recycle_cases s role groups).1 (
    h.0,
    omega (
      arith,
      length-le_of_Within groups s.groups dg h.1,
      length-le_of_Within s.groups groups ds h.2,
    ),
    h.1,
  ),
)
