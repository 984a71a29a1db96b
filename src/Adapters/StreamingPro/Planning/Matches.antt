-- ===== src/Adapters/StreamingPro/Planning/Matches.antt =====
-- What adapters/streaming_pro/reconciler.py plans for a row that the bridge does not list.
