-- ===== src/Notifications.antt =====
-- web/src/components/Notifications.jsx: the list of notifications.
pub mod Actions
pub mod Paging
pub mod Display
pub mod Autolink
pub mod Icon
