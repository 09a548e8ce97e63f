-- ===== src/Seat/Manager.antt =====
-- internal/seat/manager.go: the parts of the manager of seats.
pub mod Lanes
