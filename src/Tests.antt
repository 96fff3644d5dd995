-- ===== src/Tests.antt =====
-- Examples: every theorem that has conditions, at a case where they hold.
mod License
mod Crypto
mod Store
mod Web
mod Dashboard
mod Race
mod Admin
mod Webhook
mod Pages
mod Seats
mod Start
mod Client
mod Overwrite
