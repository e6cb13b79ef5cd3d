-- ===== src/Network.antt =====
-- server/internal/network: the wire format of a frame, and the queues of a connection.
pub mod Frame
pub mod Connection
