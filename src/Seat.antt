-- ===== src/Seat.antt =====
-- internal/seat: the lanes of the manager, the log ring, the setup scripts of folders, and the records of seats.
pub mod Manager
pub mod Ring
pub mod Setups
pub mod Record
pub mod Store
