-- ===== src/Signals/Decision/Breakout.antt =====
-- live_trading/signals/decision_engine.py: what an entry in a range rests on.
use scalp_tn_aaa.Float.{Float}
