-- ===== src/Store.antt =====
-- internal/store: the tables and the operations on them, one module for each file of the package.
pub mod Models
pub mod Schema
pub mod Open
pub mod Settings
pub mod Admins
pub mod Products
pub mod Licenses
pub mod Devices
pub mod Valid
pub mod Listings
