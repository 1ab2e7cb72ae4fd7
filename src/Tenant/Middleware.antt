-- ===== src/Tenant/Middleware.antt =====
-- sdk/pkg/tenant/middleware: which tenant a request is for.
pub mod Config
pub mod Extract
pub mod Laws
mod Examples
