-- ===== src/Tests/EventBus.antt =====
-- Two events on a bus with one subscriber; the handling of the second one is interrupted.
use scalp_tn_aaa.Base.{ℕ, ◌≡◌, ◌≢◌, refl, List, [], ◌∷◌, ◌++◌, arith}
use scalp_tn_aaa.Base.Text.{codes, text_eq}
use scalp_tn_aaa.Float.Values.{find, put}
use scalp_tn_aaa.Panel.EventBus.{
  Event, EventBus, Reach, fresh, started, subscribed, published, taken, finished, interrupted,
  new_bus, start, subscribe, publish, take_next, finish, interrupt, admitted,
}
use scalp_tn_aaa.Panel.EventBus.Order.{IsFifo, IsCounted, Reach-IsFifo, Reach-IsCounted}

abbrev opened : Event ℕ
opened = record { event_type = codes "trade.opened"; data_of = 1 }

abbrev closed : Event ℕ
closed = record { event_type = codes "trade.closed"; data_of = 2 }

abbrev listening : EventBus ℕ
listening = subscribe (codes "trade.opened") 7 (start new_bus)

abbrev loaded : EventBus ℕ
loaded = publish closed (publish opened listening)

abbrev accepted : List (Event ℕ)
accepted = ([] ++ admitted opened listening) ++ admitted closed (publish opened listening)

-- The first event is handled, and the second one is in handling.
abbrev busy : EventBus ℕ
busy = take_next (finish (take_next loaded))

busy_lem :
    (busy.calls ≡ (opened, 7 ∷ []) ∷ (closed, []) ∷ []) × (busy.queue ≡ []) × (busy.handling ≡ 1)
unfolding take_next finish publish subscribe start find put text_eq
busy_lem = (refl, refl, refl)

busy-Reach : Reach accepted 0 busy
busy-Reach = taken (
    finished (
      taken (
        published closed (published opened (subscribed (codes "trade.opened") 7 (started fresh))))))

busy_once : busy.handling ≢ 0
busy_once h = ground (arith, busy_lem)

broken-Reach : Reach accepted 1 (interrupt busy)
broken-Reach = interrupted busy-Reach busy_once

Reach-IsFifo_example : IsFifo accepted (interrupt busy).calls (interrupt busy).queue
Reach-IsFifo_example = Reach-IsFifo broken-Reach

Reach-IsCounted_example :
    IsCounted 1 (interrupt busy).unfinished (interrupt busy).handling (interrupt busy).queue
Reach-IsCounted_example = Reach-IsCounted broken-Reach
