-- ===== src/Web.antt =====
-- internal/web: the HTTP surface, one module for each file of the package.
pub mod Http
pub mod Forms
pub mod Api
pub mod Auth
pub mod Admin
pub mod Routes
