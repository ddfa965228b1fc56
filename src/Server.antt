-- ===== src/Server.antt =====
-- src/server: several agents behind one HTTP server.
pub mod AgentServer
