-- ===== src/Auth.antt =====
-- Refresh tokens: internal/domain/user/session.go is `Token`, internal/repository/postgres/session.go
-- is `Sessions`, and the operations of internal/services/auth.go
-- on them are `Service` and `Login`.
pub mod Token
pub mod Sessions
pub mod Service
pub mod Login
