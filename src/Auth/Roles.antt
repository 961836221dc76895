-- ===== src/Auth/Roles.antt =====
-- shared/auth/jwt/user_roles.go and the texts of shared/models/user_roles.go: the roles in a token's
-- claims.
pub mod Distinct
pub mod RoundTrip
use spot_order_grpc.Prelude.{
  String, Bool, true, false, ◌||◌, Option, none, some, List, [], ◌∷◌, ◌++◌, str_eq, if◌then◌else◌,
}
use spot_order_grpc.Exec.{Result, ok, err}
use spot_order_grpc.Domain.Error.{missing_user_roles, invalid_user_roles, build_token_claims_failed}
use spot_order_grpc.Spot.Viewer.{UserRole, role_unspecified, role_user, role_admin, role_viewer}

-- (r UserRole) String()
unfoldable pub user_role_string : UserRole → String
user_role_string role_user = "ROLE_USER"
user_role_string role_admin = "ROLE_ADMIN"
user_role_string role_viewer = "ROLE_VIEWER"
user_role_string role_unspecified = "ROLE_UNSPECIFIED"

abbrev pub same_role : UserRole → UserRole → Bool
same_role role_unspecified role_unspecified = true
same_role role_user role_user = true
same_role role_admin role_admin = true
same_role role_viewer role_viewer = true
same_role _ _ = false

abbrev pub has_role : UserRole → List UserRole → Bool
has_role r [] = false
has_role r (q ∷ qs) = same_role r q || has_role r qs

abbrev pub has_text : String → List String → Bool
has_text t [] = false
has_text t (u ∷ us) = str_eq t u || has_text t us

-- The loop of UserRolesToClaims, with the texts so far.
unfoldable pub add_role_texts : List String → List UserRole → List String
unfolding user_role_string
add_role_texts out [] = out
add_role_texts out (role_unspecified ∷ roles) = add_role_texts out roles
add_role_texts out (role ∷ roles) =
    add_role_texts
      (if has_text (user_role_string role) out then out else out ++ user_role_string role ∷ [])
      roles

abbrev pub claims_or_failed : List String → Result (List String)
claims_or_failed [] = err build_token_claims_failed
claims_or_failed (t ∷ ts) = ok (t ∷ ts)

unfoldable pub user_roles_to_claims : List UserRole → Result (List String)
unfolding add_role_texts
user_roles_to_claims roles = claims_or_failed (add_role_texts [] roles)

-- strings.ToUpper(strings.TrimSpace(s)) is a parameter.
module _ (upper_trimmed : String → String) where
  -- ParseUserRole; `none` is false.
  unfoldable pub parse_user_role : String → Option UserRole
  parse_user_role value =
      if str_eq (upper_trimmed value) "ROLE_USER"
      then some role_user
      else if str_eq (upper_trimmed value) "ROLE_ADMIN"
      then some role_admin
      else if str_eq (upper_trimmed value) "ROLE_VIEWER"
      then some role_viewer
      else none

  -- The loop of ParseUserRolesClaims, with the roles so far.
  unfoldable pub parse_roles : List UserRole → List String → Result (List UserRole)
  unfolding parse_user_role
  parse_roles out [] = ok out
  parse_roles out (raw ∷ rest) = elim (parse_user_role raw) [
    | none ↦ err invalid_user_roles
    | some role_unspecified ↦ err invalid_user_roles
    | some role ↦ parse_roles (if has_role role out then out else out ++ role ∷ []) rest
  ]

  unfoldable pub parse_user_roles_claims : List String → Result (List UserRole)
  unfolding parse_roles
  parse_user_roles_claims [] = err missing_user_roles
  parse_user_roles_claims (raw ∷ rest) = parse_roles [] (raw ∷ rest)
