-- ===== src/Client/Session.antt =====
-- A whole session of a client, as the thread of its first connection serves it
-- (server-side/source/Server.cpp:1130-1167, for what client-side/source/Client.cpp:57-109, 193-206
-- and 247-256 write).
