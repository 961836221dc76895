-- ===== src/Domain.antt =====
-- The data of both services: orderService/internal/domain/models, shared/models and the error
-- values of shared/errors.
pub mod Status
pub mod Error
