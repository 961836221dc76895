-- ===== src/Auth/Roles/Distinct.antt =====
-- The roles that shared/auth/jwt/user_roles.go puts into a token's claims.
use spot_order_grpc.Prelude.{
  String, ◌≡◌, refl, sym, ap, ◌∙◌, inl, inr, Bool, true, false, not, ◌&&◌, ◌||◌, List, [], ◌∷◌,
  ◌++◌, map, str_eq, eq_iff, Bool-cases, if◌then◌else◌,
}
use spot_order_grpc.Spot.Viewer.{UserRole, role_unspecified, role_user, role_admin, role_viewer}
use spot_order_grpc.Auth.Roles.{user_role_string, same_role, has_role, has_text, add_role_texts}

same_text : (q r : UserRole) → str_eq (user_role_string q) (user_role_string r) ≡ same_role q r
unfolding user_role_string
same_text role_unspecified role_unspecified = refl
same_text role_unspecified role_user = refl
same_text role_unspecified role_admin = refl
same_text role_unspecified role_viewer = refl
same_text role_user role_unspecified = refl
same_text role_user role_user = refl
same_text role_user role_admin = refl
same_text role_user role_viewer = refl
same_text role_admin role_unspecified = refl
same_text role_admin role_user = refl
same_text role_admin role_admin = refl
same_text role_admin role_viewer = refl
same_text role_viewer role_unspecified = refl
same_text role_viewer role_user = refl
same_text role_viewer role_admin = refl
same_text role_viewer role_viewer = refl

abbrev from_text : String → UserRole
from_text t =
    if str_eq t "ROLE_USER"
    then role_user
    else if str_eq t "ROLE_ADMIN"
    then role_admin
    else if str_eq t "ROLE_VIEWER"
    then role_viewer
    else role_unspecified

from_text_lem : (r : UserRole) → from_text (user_role_string r) ≡ r
unfolding user_role_string
from_text_lem role_unspecified = refl
from_text_lem role_user = refl
from_text_lem role_admin = refl
from_text_lem role_viewer = refl

same_role_eq : (q r : UserRole) → same_role q r ≡ true → q ≡ r
same_role_eq q r h =
    sym (from_text_lem q)
    ∙ ap from_text ((eq_iff (user_role_string q) (user_role_string r)).0 (same_text q r ∙ h))
    ∙ from_text_lem r

abbrev pub texts : List UserRole → List String
texts rs = map user_role_string rs

abbrev pub is_specified : UserRole → Bool
is_specified r = not (same_role r role_unspecified)

-- The roles without the unspecified one, each where it first stands, after those before.
abbrev pub put : UserRole → List UserRole → List UserRole
put r out = if has_role r out then out else out ++ r ∷ []

unfoldable pub distinct : List UserRole → List UserRole → List UserRole
distinct out [] = out
distinct out (role_unspecified ∷ roles) = distinct out roles
distinct out (role ∷ roles) = distinct (put role out) roles

has_text-texts :
    (r : UserRole) (out : List UserRole)
    → has_text (user_role_string r) (texts out) ≡ has_role r out
has_text-texts r [] = refl
has_text-texts r (q ∷ qs) = rw (same_text r q, has_text-texts r qs) refl

texts_snoc :
    (out : List UserRole) (r : UserRole)
    → texts (out ++ r ∷ []) ≡ texts out ++ user_role_string r ∷ []
texts_snoc [] r = refl
texts_snoc (q ∷ qs) r = ap (λ ts. user_role_string q ∷ ts) (texts_snoc qs r)

put_text :
    (r : UserRole) (out : List UserRole)
    → (if has_text (user_role_string r) (texts out)
        then texts out
        else texts out ++ user_role_string r ∷ [])
      ≡ texts (put r out)
put_text r out = rw (has_text-texts r out) (elim (Bool-cases (has_role r out)) [
  | inl hit ↦ rw hit refl
  | inr miss ↦ rw miss (sym (texts_snoc out r))
])

pub add_role_texts-texts :
    (out roles : List UserRole) → add_role_texts (texts out) roles ≡ texts (distinct out roles)
unfolding add_role_texts distinct
add_role_texts-texts out [] = refl
add_role_texts-texts out (role_unspecified ∷ roles) = add_role_texts-texts out roles
add_role_texts-texts out (role_user ∷ roles) =
    ap (λ ts. add_role_texts ts roles) (put_text role_user out)
    ∙ add_role_texts-texts (put role_user out) roles
add_role_texts-texts out (role_admin ∷ roles) =
    ap (λ ts. add_role_texts ts roles) (put_text role_admin out)
    ∙ add_role_texts-texts (put role_admin out) roles
add_role_texts-texts out (role_viewer ∷ roles) =
    ap (λ ts. add_role_texts ts roles) (put_text role_viewer out)
    ∙ add_role_texts-texts (put role_viewer out) roles

has_role_snoc :
    (q : UserRole) (out : List UserRole) (r : UserRole)
    → has_role q (out ++ r ∷ []) ≡ (has_role q out || same_role q r)
has_role_snoc q [] r = or_false (same_role q r)
  where
    or_false : (b : Bool) → (b || false) ≡ b
    or_false true = refl
    or_false false = refl
has_role_snoc q (x ∷ xs) r =
    rw (has_role_snoc q xs r) (assoc (same_role q x) (has_role q xs) (same_role q r))
  where
    assoc : (a b c : Bool) → (a || (b || c)) ≡ ((a || b) || c)
    assoc true b c = refl
    assoc false b c = refl

has_role-put :
    (q r : UserRole) (out : List UserRole)
    → has_role q (put r out) ≡ (has_role q out || same_role q r)
has_role-put q r out = elim (Bool-cases (has_role r out)) [
  | inr miss ↦ rw miss (has_role_snoc q out r)
  | inl hit ↦ rw hit (
      absorb (has_role q out) (same_role q r)
        (λ same. ap (λ x. has_role x out) (same_role_eq q r same) ∙ hit))
]
  where
    absorb : (a b : Bool) → (b ≡ true → a ≡ true) → a ≡ (a || b)
    absorb true b h = refl
    absorb false false h = refl
    absorb false true h = h refl

-- The same roles, less the unspecified one.
pub has_role-distinct :
    (q : UserRole) (out roles : List UserRole)
    → has_role q (distinct out roles) ≡ (has_role q out || (is_specified q && has_role q roles))
unfolding distinct
has_role-distinct q out roles = go out roles
  where
    drop : (a s h : Bool) → (a || (not s && h)) ≡ (a || (not s && (s || h)))
    drop a true h = refl
    drop a false h = refl

    none_left : (a s : Bool) → a ≡ (a || (s && false))
    none_left true s = refl
    none_left false true = refl
    none_left false false = refl

    mix :
        (a s sp h : Bool)
        → (s ≡ true → sp ≡ true)
        → ((a || s) || (sp && h)) ≡ (a || (sp && (s || h)))
    mix true s sp h given = refl
    mix false false sp h given = refl
    mix false true true h given = refl
    mix false true false h given = sym (given refl)

    step :
        (r : UserRole) (out roles : List UserRole)
        → is_specified r ≡ true
        → has_role q (distinct (put r out) roles)
          ≡ (has_role q (put r out) || (is_specified q && has_role q roles))
        → has_role q (distinct (put r out) roles)
          ≡ (has_role q out || (is_specified q && (same_role q r || has_role q roles)))
    step r out roles sp e =
        e
        ∙ ap (λ b. b || (is_specified q && has_role q roles)) (has_role-put q r out)
        ∙ mix (has_role q out) (same_role q r) (is_specified q) (has_role q roles)
            (λ same. ap is_specified (same_role_eq q r same) ∙ sp)

    go :
        (out roles : List UserRole)
        → has_role q (distinct out roles) ≡ (has_role q out || (is_specified q && has_role q roles))
    go out [] = none_left (has_role q out) (is_specified q)
    go out (role_unspecified ∷ roles) =
        go out roles ∙ drop (has_role q out) (same_role q role_unspecified) (has_role q roles)
    go out (role_user ∷ roles) = step role_user out roles refl (go (put role_user out) roles)
    go out (role_admin ∷ roles) = step role_admin out roles refl (go (put role_admin out) roles)
    go out (role_viewer ∷ roles) = step role_viewer out roles refl (go (put role_viewer out) roles)
