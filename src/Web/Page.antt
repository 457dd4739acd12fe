-- ===== src/Web/Page.antt =====
-- web/src/app: one module for each page.
pub mod Pay
pub mod Receipt
pub mod Rules
pub mod NewViolation
pub mod Violations
pub mod Detail
pub mod Home
pub mod Login
