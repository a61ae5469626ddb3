-- ===== src/Monitoring.antt =====
-- src/monitoring.c: the socket on which clients ask for data and for actions. `Peer` has the
-- protocol of one client, `Requests` the requests, `Link` the events of the thread for one client.
pub mod Peer
pub mod Requests
pub mod Link
pub mod Server
pub mod Buffer
pub mod Protocol
pub mod Stuck
mod Tests
