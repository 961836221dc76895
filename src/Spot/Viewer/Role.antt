-- ===== src/Spot/Viewer/Role.antt =====
-- effectiveUserRole of market_viewer.go.
use spot_order_grpc.Prelude.{
  ◌≡◌, refl, Bool, true, false, ◌||◌, Option, none, some, List, [], ◌∷◌, if◌then◌else◌,
}
use spot_order_grpc.Spot.Store.{RoleKey, admin, viewer, user}
use spot_order_grpc.Spot.Viewer.{
  UserRole, role_unspecified, role_user, role_admin, role_viewer, role_so_far, effective_user_role,
}

abbrev pub is_admin : UserRole → Bool
is_admin role_admin = true
is_admin _ = false

abbrev pub is_viewer : UserRole → Bool
is_viewer role_viewer = true
is_viewer _ = false

abbrev pub is_user : UserRole → Bool
is_user role_user = true
is_user _ = false

abbrev pub any : (UserRole → Bool) → List UserRole → Bool
any p [] = false
any p (r ∷ rs) = p r || any p rs

-- Administrators come before viewers, and viewers before users.
abbrev pub strongest : List UserRole → Option RoleKey
strongest roles =
    if any is_admin roles
    then some admin
    else if any is_viewer roles
    then some viewer
    else if any is_user roles
    then some user
    else none

-- The strongest of the roles to come and of the result so far.
abbrev from_viewer : List UserRole → Option RoleKey
from_viewer roles = if any is_admin roles then some admin else some viewer

abbrev from_user : List UserRole → Option RoleKey
from_user roles =
    if any is_admin roles
    then some admin
    else if any is_viewer roles
    then some viewer
    else some user

viewer_lem : (roles : List UserRole) → role_so_far (some viewer) roles ≡ from_viewer roles
unfolding role_so_far
viewer_lem [] = refl
viewer_lem (role_admin ∷ roles) = refl
viewer_lem (role_viewer ∷ roles) = viewer_lem roles
viewer_lem (role_user ∷ roles) = viewer_lem roles
viewer_lem (role_unspecified ∷ roles) = viewer_lem roles

user_lem : (roles : List UserRole) → role_so_far (some user) roles ≡ from_user roles
unfolding role_so_far
user_lem [] = refl
user_lem (role_admin ∷ roles) = refl
user_lem (role_viewer ∷ roles) = viewer_lem roles
user_lem (role_user ∷ roles) = user_lem roles
user_lem (role_unspecified ∷ roles) = user_lem roles

-- Of whatever roles a caller has, in whatever order, the role that counts is the administrator's if
-- it is among them, else the viewer's if it is, else the user's if it is, and else there is none.
pub effective_user_role_lem : (roles : List UserRole) → effective_user_role roles ≡ strongest roles
unfolding effective_user_role role_so_far
effective_user_role_lem [] = refl
effective_user_role_lem (role_admin ∷ roles) = refl
effective_user_role_lem (role_viewer ∷ roles) = viewer_lem roles
effective_user_role_lem (role_user ∷ roles) = user_lem roles
effective_user_role_lem (role_unspecified ∷ roles) = effective_user_role_lem roles
