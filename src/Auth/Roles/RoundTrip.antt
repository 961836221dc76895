-- ===== src/Auth/Roles/RoundTrip.antt =====
-- The roles of a user on their way into a token's claims and back (shared/auth/jwt/user_roles.go).
use spot_order_grpc.Prelude.{
  String, ◌≡◌, refl, sym, ap, ◌∙◌, inl, inr, some, true, false, ◌&&◌, List, [], ◌∷◌, ◌++◌,
  Bool-cases,
}
use mathlib.Core.List.{append-nil, append_assoc}
use spot_order_grpc.Exec.{ok}
use spot_order_grpc.Spot.Viewer.{UserRole, role_unspecified, role_user, role_admin, role_viewer}
use spot_order_grpc.Auth.Roles.{
  user_role_string, has_role, claims_or_failed, user_roles_to_claims, parse_user_role, parse_roles,
  parse_user_roles_claims,
}
use spot_order_grpc.Auth.Roles.Distinct.{
  texts, is_specified, put, distinct, add_role_texts-texts, has_role-distinct,
}

-- Each role is specified, and stands neither among those before nor earlier in the list.
abbrev IsFresh : List UserRole → List UserRole → Type 0
IsFresh acc [] = Unit
IsFresh acc (r ∷ rs) =
    (is_specified r ≡ true) × (has_role r acc ≡ false) × IsFresh (acc ++ r ∷ []) rs

IsFresh-snoc :
    (acc rs : List UserRole) (r : UserRole)
    → IsFresh acc rs
    → is_specified r ≡ true
    → has_role r (acc ++ rs) ≡ false
    → IsFresh acc (rs ++ r ∷ [])
IsFresh-snoc acc [] r h sp new = (sp, ap (has_role r) (sym (append-nil acc)) ∙ new, tt)
IsFresh-snoc acc (x ∷ xs) r (spx, newx, h) sp new = (
  spx,
  newx,
  IsFresh-snoc (acc ++ x ∷ []) xs r h sp (ap (has_role r) (append_assoc acc (x ∷ []) xs) ∙ new),
)

IsFresh-put :
    (r : UserRole) (out : List UserRole)
    → is_specified r ≡ true
    → IsFresh [] out
    → IsFresh [] (put r out)
IsFresh-put r out sp h = elim (Bool-cases (has_role r out)) [
  | inl hit ↦ rw hit h
  | inr miss ↦ rw miss (IsFresh-snoc [] out r h sp miss)
]

IsFresh-distinct : (out roles : List UserRole) → IsFresh [] out → IsFresh [] (distinct out roles)
unfolding distinct
IsFresh-distinct out [] h = h
IsFresh-distinct out (role_unspecified ∷ roles) h = IsFresh-distinct out roles h
IsFresh-distinct out (role_user ∷ roles) h =
    IsFresh-distinct (put role_user out) roles (IsFresh-put role_user out refl h)
IsFresh-distinct out (role_admin ∷ roles) h =
    IsFresh-distinct (put role_admin out) roles (IsFresh-put role_admin out refl h)
IsFresh-distinct out (role_viewer ∷ roles) h =
    IsFresh-distinct (put role_viewer out) roles (IsFresh-put role_viewer out refl h)

module _ (upper_trimmed : String → String)
    (already : (r : UserRole) → upper_trimmed (user_role_string r) ≡ user_role_string r) where
  parse-text :
      (r : UserRole)
      → is_specified r ≡ true
      → parse_user_role upper_trimmed (user_role_string r) ≡ some r
  unfolding parse_user_role user_role_string
  parse-text role_unspecified sp = let never : false ≡ true = sp in absurd cc
  parse-text role_user sp =
      let same : upper_trimmed "ROLE_USER" ≡ "ROLE_USER" = already role_user in rw same refl
  parse-text role_admin sp =
      let same : upper_trimmed "ROLE_ADMIN" ≡ "ROLE_ADMIN" = already role_admin in rw same refl
  parse-text role_viewer sp =
      let same : upper_trimmed "ROLE_VIEWER" ≡ "ROLE_VIEWER" = already role_viewer in rw same refl

  parse-texts :
      (acc rs : List UserRole)
      → IsFresh acc rs
      → parse_roles upper_trimmed acc (texts rs) ≡ ok (acc ++ rs)
  unfolding parse_roles
  parse-texts acc [] h = ap (λ rs. ok rs) (sym (append-nil acc))
  parse-texts acc (r ∷ rs) (sp, new, h) =
      go r sp (parse-text r sp) new
        (parse-texts (acc ++ r ∷ []) rs h ∙ ap (λ rs. ok rs) (append_assoc acc (r ∷ []) rs))
    where
      go :
          (r : UserRole)
          → is_specified r ≡ true
          → parse_user_role upper_trimmed (user_role_string r) ≡ some r
          → has_role r acc ≡ false
          → parse_roles upper_trimmed (acc ++ r ∷ []) (texts rs) ≡ ok (acc ++ r ∷ rs)
          → parse_roles upper_trimmed acc (texts (r ∷ rs)) ≡ ok (acc ++ r ∷ rs)
      go role_unspecified sp reads new rest = let never : false ≡ true = sp in absurd cc
      go role_user sp reads new rest = rw (parse_roles, reads, new) rest
      go role_admin sp reads new rest = rw (parse_roles, reads, new) rest
      go role_viewer sp reads new rest = rw (parse_roles, reads, new) rest

  -- Where the texts of the roles are trimmed and in upper case already, and a list of roles has one that
  -- is specified: UserRolesToClaims gives claims, ParseUserRolesClaims reads them back, and the roles
  -- that it reads are those of the list but the unspecified one.
  pub parse-user_roles_to_claims :
      (roles : List UserRole) (some_role : UserRole)
      → is_specified some_role ≡ true
      → has_role some_role roles ≡ true
      → (claims : List String) × (out : List UserRole) × (user_roles_to_claims roles ≡ ok claims)
        × (parse_user_roles_claims upper_trimmed claims ≡ ok out)
        × ((q : UserRole) → has_role q out ≡ (is_specified q && has_role q roles))
  unfolding user_roles_to_claims parse_user_roles_claims parse_roles
  parse-user_roles_to_claims roles some_role sp there =
      go (distinct [] roles) (ap claims_or_failed (add_role_texts-texts [] roles))
        (IsFresh-distinct [] roles tt) (λ q. has_role-distinct q [] roles)
    where
      go :
          (out : List UserRole)
          → user_roles_to_claims roles ≡ claims_or_failed (texts out)
          → IsFresh [] out
          → ((q : UserRole) → has_role q out ≡ (is_specified q && has_role q roles))
          → (claims : List String) × (out : List UserRole) × (user_roles_to_claims roles
              ≡ ok claims)
            × (parse_user_roles_claims upper_trimmed claims ≡ ok out)
            × ((q : UserRole) → has_role q out ≡ (is_specified q && has_role q roles))
      go [] e fresh same =
          let found : (is_specified some_role && has_role some_role roles) ≡ true =
            ap (λ b. b && has_role some_role roles) sp ∙ there in
          let never : false ≡ true = same some_role ∙ found in absurd cc
      go (r ∷ rs) e fresh same = (texts (r ∷ rs), r ∷ rs, e, parse-texts [] (r ∷ rs) fresh, same)
