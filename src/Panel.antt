-- ===== src/Panel.antt =====
-- The candidate panel's coordination (src/wayland/panel_coordinator.c and panel_scheduler.c), and
-- the status indicator that it shows (indicator.c).
pub mod Coordinator
pub mod Scheduler
pub mod Indicator
pub mod Examples
