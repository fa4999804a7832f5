-- ===== src/Server.antt =====
-- udp_server.cpp: the UDP server, one thread that runs `UdpServer::server_loop`. `State` has its
-- variables, `Book` the cache of commands with the packets that are sent, `Reset`, `Scheduler` and
-- `Events` its lambdas, `Moves`, `Clicks`, `Motion` and `Text` what it does with a datagram, and `Loop`
-- one round of it.
pub mod State
pub mod Book
pub mod Reset
pub mod Scheduler
pub mod Events
pub mod Moves
pub mod Clicks
pub mod Line
pub mod Text
pub mod Motion
pub mod Loop
pub mod Start
pub mod Control
pub mod Owner
pub mod Cached
pub mod Release
pub mod Cycle
pub mod Desk
mod Tests
