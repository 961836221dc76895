-- ===== src/Tests/Auth.antt =====
-- Refresh over the server in memory: one token in use.
use spot_order_grpc.Prelude.{
  ℕ, suc, String, ◌≡◌, ◌≢◌, refl, ap, Bool, true, List, ◌&&◌, false, none, some, [], ◌∷◌, str_eq,
  eq_iff, arith, if◌then◌else◌,
}
use Prim.Native.Char.{code}
use spot_order_grpc.Exec.{
  Result, ok, Sys, pure, raise, lift, call, ◌>>=◌, attempt, read_clock, new_uuid,
}
use spot_order_grpc.Redis.{refresh_key, session_key, current_refresh_key}
use spot_order_grpc.Order.Platform.{Data, Platform}
use spot_order_grpc.Order.Block.{cache_get}
use spot_order_grpc.Auth.Roles.{
  user_role_string, has_role, add_role_texts, user_roles_to_claims, parse_user_role, parse_roles,
  parse_user_roles_claims,
}
use spot_order_grpc.Spot.Viewer.{UserRole, role_unspecified, role_user, role_admin}
use spot_order_grpc.Auth.Roles.Distinct.{is_specified}
use spot_order_grpc.Auth.Roles.RoundTrip.{parse-user_roles_to_claims}
use spot_order_grpc.Auth.Jwt.{
  Claims, Signer, refresh, valid, invalid, parse_token, generate_access_token,
  generate_refresh_token,
}
use spot_order_grpc.Auth.RefreshTokens.{KeyText, rotate_script, rotate, is_session_active}
use spot_order_grpc.Auth.Service.{
  claims_holder, validate_refresh_token, generate_token_pair, rotate_tokens, refresh_tokens,
}
use spot_order_grpc.Auth.Spent.{refresh_once}
use spot_order_grpc.Auth.Chain.{rotations, rotations_lem}
use spot_order_grpc.Tests.Memory.{Memory, memory, key_eq}
use spot_order_grpc.Tests.Setup.{platform, well, start, empty_memory, strokes}

abbrev old_claims : Claims
old_claims = record {
  id = "old";
  subject = "user";
  issued_at = 1;
  expires_at = 100;
  token_type = refresh;
  session_id = "session";
  user_roles = "ROLE_USER" ∷ [];
}

abbrev signer : Signer
signer = record {
  sign = λ c. some c.id;
  parse = λ n token. if str_eq token "old" then valid old_claims else invalid;
  access_ttl = 10;
  refresh_ttl = 100;
  uuid_string = strokes;
  uuid_parse = λ s. some 1;
  upper_trimmed = λ s. s;
}

abbrev server : Platform Memory
server = record (platform well) { uuids = λ n. suc n }

abbrev texts : KeyText
texts = record { key_text = λ k. "refresh:old"; read_key = λ s. none }

abbrev in_use : Sys (Data Memory)
in_use = record start {
  state = record (start.state) {
    redis =
        memory.set
          (memory.set (memory.set empty_memory (refresh_key 1 "old") "1") (session_key 1) "session")
          (current_refresh_key 1) "refresh:old";
  };
}

reads : (n : ℕ) (c : Claims) → signer.parse n "old" ≡ valid c → c ≡ old_claims
reads n c e = cc

abbrev first_code : String → ℕ
first_code String.[] = 0
first_code (String.◌∷◌ c s) = code c

fresh : (n : ℕ) → strokes (suc n) ≢ "old"
fresh n e = let codes = ap first_code e in absurd (omega (arith, codes))

refresh_once_example :
    (refresh_tokens server signer texts 100 "old"
      (refresh_tokens server signer texts 100 "old" in_use).1).0
    ≢ ok ("", "ii")
unfolding user_role_string add_role_texts user_roles_to_claims parse_user_role parse_roles
    parse_user_roles_claims parse_token generate_access_token generate_refresh_token rotate_script
    rotate is_session_active claims_holder validate_refresh_token generate_token_pair rotate_tokens
    refresh_tokens cache_get pure raise lift call ◌>>=◌ attempt read_clock new_uuid key_eq
refresh_once_example =
    refresh_once server signer texts 100 "old" old_claims 1 reads refl fresh (λ n d h. h) in_use
      (refresh_tokens server signer texts 100 "old" in_use).1 ("", "i") ("", "ii") refl refl

old_to_new : ◌≢◌ {A = String} "new" "old"
old_to_new e = let never : false ≡ true = (eq_iff "new" "old").1 e in cc

new_to_newer : ◌≢◌ {A = String} "newer" "new"
new_to_newer e = let never : false ≡ true = (eq_iff "newer" "new").1 e in cc

newer_to_old : ◌≢◌ {A = String} "old" "newer"
newer_to_old e = let never : false ≡ true = (eq_iff "old" "newer").1 e in cc

abbrev first_rotation : Result Bool × Sys (Data Memory)
first_rotation = rotate server texts 100 1 "old" "session" "new" "session" in_use

rotations_example :
    (rotations server texts 100 1 "new" "session"
      (("newer", "next") ∷ ("old", "last") ∷ [])
      first_rotation.1).0
    ≡ ok true
unfolding rotate_script rotate call ◌>>=◌ pure key_eq
rotations_example =
    rotations_lem server texts 100 1 (omega arith) (λ n. refl) (λ n d jti session h. h) "old" "new"
      "session" "session" old_to_new in_use refl (("newer", "next") ∷ ("old", "last") ∷ [])
      (new_to_newer, (newer_to_old, tt))

abbrev held : List UserRole
held = role_admin ∷ role_unspecified ∷ role_user ∷ role_admin ∷ []

parse-user_roles_to_claims_example :
    (claims : List String) × (out : List UserRole) × (user_roles_to_claims held ≡ ok claims)
    × (parse_user_roles_claims (λ s. s) claims ≡ ok out)
    × ((q : UserRole) → has_role q out ≡ (is_specified q && has_role q held))
parse-user_roles_to_claims_example =
    parse-user_roles_to_claims (λ s. s) (λ r. refl) held role_admin refl refl
