-- ===== src/Tenant.antt =====
-- Tenants (sdk/pkg/tenant).
pub mod Provider
pub mod Numbers
pub mod Middleware
pub mod Clients
