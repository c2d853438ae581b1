-- ===== src/Lib.antt =====
-- Epigone watches traders on a perpetuals exchange, alerts their followers, and copies chosen
-- leaders into sub-accounts. This library models the parts of it that decide something, as
-- functions on the state that the program keeps in memory or in a table, and proves what they
-- promise one another. A transaction of the program, which holds its rows' locks, is one step.
--
-- The parts, and where they stand in the repository, each path under `src/epigone/`:
-- - Positions: `position_diff.py` decides what happened between two looks at a
--   trader's positions, and `position_snapshots.py` writes what is remembered. Both lanes, the
--   poll pass and the websocket, use them. `diff_positions`, `open_event`, `close_event`,
--   `flip_event`, `scale_event` and `apply_changes` keep their names.
-- - Orders: `order_diff.py` and `order_events.py` do the same for resting orders, and
--   `ws/order_lane.py` keeps their memory: `apply_orders` is a resync, `apply_updates` a frame of
--   the stream, `commit` the writes of either.
-- - Authority: `lane_authority.py` decides which lane's events count. `evaluate_authority` is one
--   evaluation; the clock, the switch, the heartbeat, the poll set and the resync stamps are the
--   `Look` that it is given.
-- - RateBudget: the shared bucket of `budget.py`, one row that every process draws on.
-- - Policy: `execute/policy.py`, the judgement of every order that adds risk, under the limits
--   that Knobs (`execute/limits.py`) lets the operator move.
-- - Episodes: `execute/episodes.py`, the books of the copied positions.
-- - Deadman: `safety/deadman.py`, the schedule on the exchange that cancels every order if
--   nobody is alive to push it.
-- - Pricing: `execute/pricing.py`, the sizes and prices of orders at the venue's precision.
-- - Halts: `safety/halt.py`, the table of halts and the request that opens or joins one.
-- - Executor: `execute/executor.py`, the copying of one event of a leader. Plan holds what
--   `_entry` and `_exit` decide before the event is claimed, Steps the claim and the gates,
--   Fills the books and the brackets of a filled entry, and Run the legs as they run, up to
--   `handle`. A handling is the list of its acts in order and the desk that it leaves; every
--   answer from outside is an argument, so that a theorem holds whatever it is. A step that
--   raises what `_handle` does not catch ends the handling.
--   Reconcile holds what a cycle concludes of an episode from what the exchange shows.
-- - Winddown: the loss budget of a sub, its columns in `execute/subs.py` and the verdict that
--   `execute/executor.py` reaches on them in every cycle. An operator's command between the
--   reading of a sub and the writing of it is part of the call.
-- - Withdrawals: `withdrawals.py` and the record of `trader_equity.py`, money that left an account
--   between two looks at it.
-- - Publication: `position_publish.py` and what it writes through, `record_events` of
--   `position_events.py` and `mark_due_now` of `ingest/fine.py`.
-- - Polling: `stream/poller.py`, the poll pass, wallet by wallet. It joins Positions,
--   Authority, Withdrawals and Publication: Polling holds the evidence it weighs, Reconcile the
--   judgement of what the websocket has told, Pass the transaction, `apply_poll`, and Loop the
--   pass over all wallets, `run_poll_pass`.
-- - Outbox: `bot/outbox.py`, the queues from which the bot delivers; `drain_outbox` is one pass.
-- - Fallback: the in-process bucket of `budget.py` and `safety/budget.py` over it; `protect` is
--   the `spend` of the kill path. Two rounds are enough fuel for its loop.
-- - Backoff: `gateway/backoff.py` and the loop of `_request_json` in `gateway/http.py`, the sleeps
--   after a 429; six tries are its fuel, as in the program.
-- - Prelude, Decimal and Dict hold what these share: numbers, tests, integers, Python's Decimal
--   and its dict. Dict.Laws and Prelude carry the lemmas; each part's children are named for
--   what they prove, and its Tests hold concrete runs.
--
-- Units and bounds. A Decimal is an integer number of quanta of 10^-30. Sums and comparisons are
-- exact, which the 28-digit context of the program does not round at the sizes it meets; what it
-- does round, a product or a quotient, is the parameter Rounding, with IsFaithful for what is
-- relied on, and Decimal.Truncating shows that it can hold. A division by zero raises in Python;
-- no theorem reads one. Times are microseconds. In RateBudget a unit of weight is a million
-- tokens and 15 flow in each microsecond, so that the program's floats are integers. The loop of
-- `spend` runs on a number of attempts as fuel, and two are enough for a spender that is alone.
--
-- Prose (reasons, decisions, log lines) stands as a constructor for each sentence. Not modelled:
-- the network, the database beyond the rows named here, the chat handlers, the statistics and
-- the screener's SQL, the watchdog's loop, and of the executor the cycle around an event: the
-- provisioning and the verification of brackets.
pub mod Prelude
pub mod Dict
pub mod Decimal
pub mod Positions
pub mod Orders
pub mod Policy
pub mod RateBudget
pub mod Authority
pub mod Deadman
pub mod Episodes
pub mod Knobs
pub mod Pricing
pub mod Halts
pub mod Executor
pub mod Winddown
pub mod Withdrawals
pub mod Publication
pub mod Polling
pub mod Outbox
pub mod Fallback
pub mod Backoff
