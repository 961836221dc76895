-- ===== src/Auth.antt =====
-- Who a caller is: the tokens of shared/auth/jwt, and their renewal in the order service.
pub mod Roles
pub mod Jwt
pub mod RefreshTokens
pub mod Service
pub mod Spent
pub mod Chain
