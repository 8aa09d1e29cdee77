-- ===== src/Services.antt =====
-- python_services: the framing of the WebSocket server.
pub mod WsFraming
