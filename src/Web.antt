-- ===== src/Web.antt =====
-- The web interface: internal/web, and the parts of ui that its pages compute with.
pub mod Request
pub mod Forms
pub mod Badges
pub mod HostsPage
pub mod Hosts
pub mod Methods
pub mod Transfer
pub mod Administration
pub mod Dashboard
pub mod Sessions
