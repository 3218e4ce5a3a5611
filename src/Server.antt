-- ===== src/Server.antt =====
-- internal/server: the WebSocket frames, and the sessions over TCP, HTTP and WebSocket.
pub mod Frame
pub mod Session
pub mod Tcp
pub mod WebSocket
pub mod Http
pub mod Upgrade
pub mod Tests
