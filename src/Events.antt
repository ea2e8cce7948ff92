-- ===== src/Events.antt =====
-- The lodge's events and those of other lodges (api/src/routes/events.ts, externalEvents.ts): their
-- times, their validation, and the registration for them.
pub mod Registration
pub mod Times
pub mod Lodge
pub mod Foreign
