-- ===== src/Event/Session/Counting.antt =====
-- `queued_msg_count` over a whole session.
