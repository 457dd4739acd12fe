-- ===== src/Web.antt =====
-- web/src: the browser application. The pages are functions from their state to `Markup`, and
-- their handlers give the new state and a list of effects.
pub mod Host
pub mod Sample
pub mod Types
pub mod Format
pub mod Markup
pub mod Effect
pub mod Http
pub mod Auth
pub mod Client
pub mod Page
pub mod Routes
