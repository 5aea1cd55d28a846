-- ===== src/Connection.antt =====
-- Connection.cpp and Connection.hpp: one end of a connection.
pub mod State
pub mod Send
pub mod Receive
pub mod Api
pub mod Loop
pub mod Transfer
pub mod Invariant
