-- ===== src/Domain.antt =====
-- internal/domain: the values that the repositories and the handlers pass around.
pub mod Order
pub mod Amount
pub mod Balance
pub mod Status
pub mod UserId
