-- ===== src/Organizations.antt =====
-- src/modules/organizations
pub mod Subject
pub mod Members
pub mod Billing
