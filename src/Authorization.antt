-- ===== src/Authorization.antt =====
-- Who may see which camera: app/authorization and the platform's authorizers.
pub mod Platform
pub mod Model
pub mod Resolver
pub mod Narrowing
pub mod Reach
pub mod Roles
mod Tests
