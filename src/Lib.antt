-- ===== src/Lib.antt =====
-- The trading robot and its Telegram panel: the rules that let an entry reach the broker, the risk
-- circuit breaker, the state that robot and panel share, and the access control of the panel.
--
-- How the parts interact. The results of the Trend Engine and of the other indicator engines pass
-- through the regime detector, the score, the veto of the higher timeframe and the entry filter into a
-- decision. The robot's loop (live_trading/trading/live_loop.py) asks the guardian before each trade,
-- lets the entry policy and the final validation judge the engines' decision, applies the one-way and
-- the capacity guard to the open positions and the drift guard to the live price, sizes the order
-- within the account's risk, and tags the order's comment, from which later cycles read a position's
-- owner. At each quote it trails the stops of the open positions. The panel reaches the robot only
-- after its middleware has limited the request rate and checked the sender's permission; its commands
-- reach the robot through Redis, where a robot also claims a signal before it orders.
--
-- Which file models which part:
--   Entry/Policy.antt        live_trading/trading/active_entry_policy.py: `evaluate_active_entry`,
--                            `strong_trend_validation_reason`. A `Decision` has the attributes that
--                            the policy reads; a `Verdict` is the branch taken.
--   Entry/Slots.antt         live_trading/trading/strategy_slots.py: tags, `one_way_entry_allowed`,
--                            `available_for_strategy_slots`; `_SLOT_PATTERN` is a search by clauses.
--   Entry/Signal.antt        live_trading/trading/entry_signal.py: ids and tags of a signal.
--   Entry/Guard.antt         live_trading/trading/entry_guard.py: `validate_entry_price_distance`.
--   Risk/Guardian.antt       live_trading/risk/guardian.py: `RiskGuardian`, its state in
--                            Risk/Guardian/State.antt, `restore_state` in Risk/Guardian/Restore.antt.
--   Risk/Trailing.antt       live_trading/risk/adaptive_trailing_stop.py: `compute_adaptive_trail` and
--                            `should_apply`; Risk/Trailing/Ticket.antt is `update_ticket` of
--                            live_trading/trading/live_loop.py for one position, with the rounding
--                            that `modify_position` of live_trading/mt5/executor.py does.
--   Risk/Capital.antt        live_trading/risk/capital_manager.py: `calc_trade_parameters`.
--   Risk/Aggregate.antt      live_trading/risk/aggregate_risk.py: `position_risk_amount` and
--                            `aggregate_open_risk`; `size_order_for_aggregate_risk` in
--                            Risk/Aggregate/Sizing.antt, `build_symbol_risk_spec` in
--                            Risk/Aggregate/Spec.antt with live_trading/mt5/volume_units.py.
--   Signals/Filter.antt      live_trading/signals/entry_filter.py: `apply_entry_filter`.
--   Signals/Regime.antt      live_trading/signals/market_regime.py: `detect_market_regime`.
--   Signals/Mtf.antt         live_trading/signals/mtf_filter.py: `mtf_allows_trade`.
--   Signals/Quality.antt     live_trading/signals/quality_filter.py: `apply_quality_filter`.
--   Signals/H1.antt          live_trading/signals/h1_validator.py: `validate_h1_candles`.
--   Signals/Confidence.antt  live_trading/signals/confidence_engine.py: `calc_confidence`.
--   Signals/Range.antt       live_trading/signals/range_strategy.py: `evaluate_range_entry`.
--   Signals/Indicators.antt  live_trading/signals/gold_engine.py: the candle test, ATR and RSI.
--   Signals/Trend.antt       live_trading/signals/trend_engine.py: the readings of the Trend Engine;
--                            `analyze_trend` is in Signals/Trend/Judge.antt.
--   Signals/Decision.antt    live_trading/signals/decision_engine.py: the guards; the run itself is
--                            Signals/Decision/Run.antt, over the results of the indicator engines.
--   Panel/RateLimiter.antt   telegram_panel/api/middleware/rate_limiter.py: `RateLimiter`.
--   Panel/Users.antt         telegram_panel/models/user.py and the roles of
--                            telegram_panel/config/constants.py.
--   Panel/Auth.antt          telegram_panel/api/middleware/auth.py with the operations of
--                            telegram_panel/storage/repositories/user_repo.py that it uses.
--   Panel/EventBus.antt      telegram_panel/core/event_bus.py: `EventBus`, its states as a relation;
--                            a worker waits for an event or handles one.
--   Panel/Session.antt       telegram_panel/models/session.py: the navigation of `UserSession`.
--   Ipc.antt                 live_trading/redis_ipc.py and telegram_panel/redis_ipc.py: the keys and
--                            the connection; the functions in Ipc/Calls.antt, and the calls of many
--                            processes in Ipc/Claims.antt.
--   Float.antt               Python's floats as a parameter with named laws (Float/Model.antt),
--                            decimals of nine places that satisfy them (Float/Fixed.antt), and the
--                            objects in a row of the broker (Float/Values.antt).
--   Base.antt                tests, lists, texts, maps, integers and exceptions that the parts share.
--   Tests.antt               runs on concrete inputs.
--
-- Texts are lists of codes; `upper`, `lower` and `strip` act on the ASCII characters. A result
-- carries the branch that was taken where the code returns a message, and an exception is a value of
-- `Result`, or `none` where there is but one; the guardian's two halt messages are written out, since the day rollover searches them.
-- Every loop is structural recursion on the list it walks, but for the one over the volume steps of
-- an order, which has `step_count` turns as fuel: it starts that many steps above the broker's
-- minimum. The clock, the Redis client, `json`, the hash of the signal tags, the broker's answers,
-- Python's `float` of a text, its `Decimal` and all float arithmetic are parameters; the laws that a
-- theorem needs are among its hypotheses.
--
-- Not modelled: network calls, logging, the messages to users, the indicator engines but the Trend
-- Engine, order execution, and what the panel displays. The guardian's writes to Redis and to the state
-- file, and those to the table of users and to the audit, are taken to succeed, and stored numbers to
-- be readable.
pub mod Base
pub mod Float
pub mod Entry
pub mod Risk
pub mod Signals
pub mod Panel
pub mod Ipc
pub mod Tests
