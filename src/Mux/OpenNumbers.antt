-- ===== src/Mux/OpenNumbers.antt =====
-- mux_v4.go: the numbers that OPEN of version 4.1 gives to its requests, and when two are the same.
