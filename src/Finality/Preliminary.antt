-- ===== src/Finality/Preliminary.antt =====
-- Which preliminary results finality.go of xrpl/internal/client goes on with.
