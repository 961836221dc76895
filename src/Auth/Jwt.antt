-- ===== src/Auth/Jwt.antt =====
-- shared/auth/jwt/manager.go, over a signer: golang-jwt signs claims with HS256 and reads them back.
use spot_order_grpc.Prelude.{
  ℕ, ◌+◌, String, Bool, true, false, Option, List, str_eq, if◌then◌else◌, on_option,
}
use spot_order_grpc.Exec.{Result, ok, err}
use spot_order_grpc.Domain.Error.{
  Error, token_expired, invalid_token, invalid_token_type, missing_token_subject,
  missing_token_session_id, sign_access_token_failed, sign_refresh_token_failed,
}
use spot_order_grpc.Spot.Viewer.{UserRole}
use spot_order_grpc.Auth.Roles.{user_roles_to_claims}

pub data TokenType : Type 0 where
  access refresh : TokenType

-- Claims, with the fields of jwt.RegisteredClaims that the code sets; an access token has no ID.
pub record Claims : Type 0 where
  pub id : String
  pub subject : String
  pub issued_at : ℕ
  pub expires_at : ℕ
  pub token_type : TokenType
  pub session_id : String
  pub user_roles : List String

-- What jwt.ParseWithClaims makes of a text at a time.
pub data Parsed : Type 0 where
  valid : Claims → Parsed
  expired invalid : Parsed

pub record Signer : Type 0 where
  pub sign : Claims → Option String
  pub parse : ℕ → String → Parsed
  pub access_ttl : ℕ
  pub refresh_ttl : ℕ
  pub uuid_string : ℕ → String
  pub uuid_parse : String → Option ℕ
  pub upper_trimmed : String → String

abbrev pub same_type : TokenType → TokenType → Bool
same_type access access = true
same_type refresh refresh = true
same_type _ _ = false

abbrev checked : TokenType → Claims → Result Claims
checked expected c =
    if same_type c.token_type expected
    then if str_eq c.subject ""
      then err missing_token_subject
      else if str_eq c.session_id ""
      then err missing_token_session_id
      else ok c
    else err invalid_token_type

module _ (j : Signer) where
  unfoldable pub parse_token : ℕ → String → TokenType → Result Claims
  parse_token now token expected = elim (j.parse now token) [
    | expired ↦ err token_expired
    | invalid ↦ err invalid_token
    | valid c ↦ checked expected c
  ]

  abbrev signed : Error → Claims → Result String
  signed e c = on_option (j.sign c) (err e) ok

  unfoldable pub generate_access_token : ℕ → ℕ → List UserRole → String → Result String
  unfolding user_roles_to_claims
  generate_access_token now user_id roles session_id = elim (user_roles_to_claims roles) [
    | err e ↦ err e
    | ok user_roles ↦ signed sign_access_token_failed (record {
      id = "";
      subject = j.uuid_string user_id;
      issued_at = now;
      expires_at = now + j.access_ttl;
      token_type = access;
      session_id = session_id;
      user_roles = user_roles;
    })
  ]

  unfoldable pub generate_refresh_token : ℕ → ℕ → List UserRole → String → String → Result String
  unfolding user_roles_to_claims
  generate_refresh_token now user_id roles jti session_id = elim (user_roles_to_claims roles) [
    | err e ↦ err e
    | ok user_roles ↦ signed sign_refresh_token_failed (record {
      id = jti;
      subject = j.uuid_string user_id;
      issued_at = now;
      expires_at = now + j.refresh_ttl;
      token_type = refresh;
      session_id = session_id;
      user_roles = user_roles;
    })
  ]
