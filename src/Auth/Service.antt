-- ===== src/Auth/Service.antt =====
-- orderService/internal/services/auth/auth_service.go: a refresh token is exchanged for a new pair of
-- tokens.
use spot_order_grpc.Prelude.{ℕ, String, List, str_eq, if◌then◌else◌, on_option}
use spot_order_grpc.Exec.{
  Result, ok, err, Exec, pure, raise, lift, ◌>>=◌, attempt, read_clock, new_uuid,
}
use spot_order_grpc.Domain.Error.{
  token_revoked, save_token_failed, session_validation_failed, invalid_subject, invalid_jti,
}
use spot_order_grpc.Order.Platform.{Data, Platform}
use spot_order_grpc.Spot.Viewer.{UserRole}
use spot_order_grpc.Auth.Roles.{parse_user_roles_claims}
use spot_order_grpc.Auth.Jwt.{
  Claims, Signer, refresh, parse_token, generate_access_token, generate_refresh_token,
}
use spot_order_grpc.Auth.RefreshTokens.{KeyText, rotate, is_session_active}

-- What validateRefreshToken returns.
pub record Holder : Type 0 where
  pub user_id : ℕ
  pub roles : List UserRole
  pub jti : String
  pub session_id : String

module _ (j : Signer) where
  -- validateRefreshToken up to the check of the session
  unfoldable pub claims_holder : Claims → Result Holder
  unfolding parse_user_roles_claims
  claims_holder c = on_option (j.uuid_parse c.subject) (err invalid_subject) (λ user_id.
      if str_eq c.id ""
      then err invalid_jti
      else elim (parse_user_roles_claims j.upper_trimmed c.user_roles) [
        | err e ↦ err e
        | ok roles ↦
            ok (record { user_id = user_id; roles = roles; jti = c.id; session_id = c.session_id })
      ])

module _ {S : Type 0} (p : Platform S) (j : Signer) (t : KeyText) (ttl_ms : ℕ) where
  open p use {clock, uuids}

  unfoldable pub validate_refresh_token : String → Exec (Data S) Holder
  unfolding parse_token claims_holder is_session_active
  validate_refresh_token token = do
    now ← read_clock clock
    claims ← lift (parse_token j now token refresh)
    holder ← lift (claims_holder j claims)
    attempt (is_session_active p holder.user_id holder.session_id) (λ active. elim active [
      | err e ↦ raise session_validation_failed
      | ok b ↦ if b then pure holder else raise token_revoked
    ])

  unfoldable pub generate_token_pair :
      ℕ → List UserRole → String → String → Exec (Data S) (String × String)
  unfolding generate_access_token generate_refresh_token
  generate_token_pair user_id roles refresh_jti session_id = do
    now ← read_clock clock
    access_token ← lift (generate_access_token j now user_id roles session_id)
    later ← read_clock clock
    refresh_token ← lift (generate_refresh_token j later user_id roles refresh_jti session_id)
    pure (access_token, refresh_token)

  unfoldable pub rotate_tokens : Holder → Exec (Data S) (String × String)
  unfolding generate_token_pair rotate
  rotate_tokens holder = do
    id ← new_uuid uuids
    let new_jti = j.uuid_string id
    tokens ← generate_token_pair holder.user_id holder.roles new_jti holder.session_id
    attempt
        (rotate p t ttl_ms holder.user_id holder.jti holder.session_id new_jti holder.session_id)
        (λ rotated. elim rotated [
          | err e ↦ raise save_token_failed
          | ok b ↦ if b then pure tokens else raise token_revoked
        ])

  -- (s *AuthService) Refresh
  unfoldable pub refresh_tokens : String → Exec (Data S) (String × String)
  unfolding validate_refresh_token rotate_tokens
  refresh_tokens token = validate_refresh_token token >>= (λ holder. rotate_tokens holder)
