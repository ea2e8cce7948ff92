-- ===== src/Tests.antt =====
-- Concrete inputs on which the theorems are applied.
mod Data
mod Sessions
mod Factors
mod Feeds
mod Roles
mod Members
mod Mails
mod Events
mod Lodges
