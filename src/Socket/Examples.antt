-- ===== src/Socket/Examples.antt =====
-- Sends of utils/src/network/socket.c in two and in three parts.
