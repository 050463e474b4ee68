-- ===== src/Panel/EventBus.antt =====
-- telegram_panel/core/event_bus.py: the queue, the subscribers and the workers. A handler is known
-- by a number, and an exception of a handler does not reach the bus. `calls` records the events
-- that workers took, with the handlers they called for each. A worker waits at the queue or awaits
-- the handlers of an event, and anything else may happen meanwhile; each `start` adds one. The log
-- is left out.
pub mod Order
use scalp_tn_aaa.Base.{
  ℕ, zero, suc, ◌-◌, ◌+◌, Bool, true, false, not, ◌≡◌, ◌≢◌, Option, none, some, List, [], ◌∷◌, ◌++◌,
  if◌then◌else◌, length, leb, ◌==◌,
}
use scalp_tn_aaa.Base.Text.{Text}
use scalp_tn_aaa.Float.Values.{find, put}

pub record Event (A : Type 0) : Type 0 where
  pub event_type : Text
  pub data_of : A

-- `unfinished` is the queue's count of events that `task_done` was not called for; `waiting` workers
-- are at the queue, and `handling` workers await the handlers of an event.
pub record EventBus (A : Type 0) : Type 0 where
  pub subscribers : List (Text × List ℕ)
  pub queue : List (Event A)
  pub unfinished : ℕ
  pub running : Bool
  pub waiting : ℕ
  pub handling : ℕ
  pub calls : List (Event A × List ℕ)

-- `asyncio.Queue(maxsize=500)`
abbrev pub max_size : ℕ
max_size = 500

abbrev pub without : ℕ → List ℕ → List ℕ
without h [] = []
without h (x ∷ xs) = let rest = without h xs in if x == h then rest else x ∷ rest

abbrev pub handlers_or_none : Option (List ℕ) → List ℕ
handlers_or_none none = []
handlers_or_none (some hs) = hs

module _ {A : Type 0} where
  abbrev pub new_bus : EventBus A
  new_bus = record {
    subscribers = [];
    queue = [];
    unfinished = 0;
    running = false;
    waiting = 0;
    handling = 0;
    calls = [];
  }

  -- `self._subscribers.get(event_type, [])`
  abbrev pub handlers : Text → EventBus A → List ℕ
  handlers event_type b = handlers_or_none (find event_type b.subscribers)

  unfoldable pub start : EventBus A → EventBus A
  start b = record b { running = true; waiting = b.waiting + 1 }

  unfoldable pub subscribe : Text → ℕ → EventBus A → EventBus A
  subscribe event_type handler b = record b {
    subscribers = put event_type (handlers event_type b ++ (handler ∷ [])) b.subscribers;
  }

  abbrev pub unsubscribed : Text → ℕ → Option (List ℕ) → EventBus A → EventBus A
  unsubscribed event_type handler none b = b
  unsubscribed event_type handler (some hs) b = record b {
    subscribers = put event_type (without handler hs) b.subscribers;
  }

  unfoldable pub unsubscribe : Text → ℕ → EventBus A → EventBus A
  unsubscribe event_type handler b =
      unsubscribed event_type handler (find event_type b.subscribers) b

  -- Whether `put_nowait` raises.
  abbrev pub is_full : EventBus A → Bool
  is_full b = leb max_size (length b.queue)

  unfoldable pub publish : Event A → EventBus A → EventBus A
  publish event b =
      if is_full b
      then b
      else record b { queue = b.queue ++ (event ∷ []); unfinished = b.unfinished + 1 }

  -- A worker gets the event, and calls every handler of its type.
  abbrev pub take_event : Event A → List (Event A) → EventBus A → EventBus A
  take_event event rest b = record b {
    queue = rest;
    waiting = b.waiting - 1;
    handling = b.handling + 1;
    calls = b.calls ++ ((event, handlers event.event_type b) ∷ []);
  }

  abbrev pub take_on : List (Event A) → EventBus A → EventBus A
  take_on [] b = b
  take_on (event ∷ rest) b = take_event event rest b

  unfoldable pub take_next : EventBus A → EventBus A
  take_next b = if b.waiting == 0 then b else take_on b.queue b

  -- The `task_done` behind the handlers. It raises a ValueError where the count is 0, which ends the
  -- worker; else the worker waits again, unless the bus was stopped.
  unfoldable pub finish : EventBus A → EventBus A
  finish b =
      if b.handling == 0
      then b
      else if b.unfinished == 0
      then record b { handling = b.handling - 1 }
      else record b {
        handling = b.handling - 1;
        unfinished = b.unfinished - 1;
        waiting = if b.running then b.waiting + 1 else b.waiting;
      }

  -- The wait times out, and the loop looks at the flag.
  unfoldable pub time_out : EventBus A → EventBus A
  time_out b = if b.running then b else record b { waiting = b.waiting - 1 }

  -- `stop` sets the flag and cancels its worker, which `cancel` or `interrupt` then ends.
  unfoldable pub stop : EventBus A → EventBus A
  stop b = record b { running = false }

  -- A worker is cancelled at the queue.
  unfoldable pub cancel : EventBus A → EventBus A
  cancel b = record b { waiting = b.waiting - 1 }

  -- A worker is cancelled while the handlers of an event run: the `except` and the `finally` both call
  -- `task_done`. Where the count is 0 by then, the call raises a ValueError, and the count stays.
  unfoldable pub interrupt : EventBus A → EventBus A
  interrupt b =
      if b.handling == 0
      then b
      else record b { handling = b.handling - 1; unfinished = b.unfinished - 1 - 1 }

  -- The events that a call of `publish` adds.
  abbrev pub admitted : Event A → EventBus A → List (Event A)
  admitted event b = if is_full b then [] else event ∷ []

  -- The states that a bus can be in, with the events that were admitted to it and the number of
  -- interruptions of an event.
  pub data Reach : List (Event A) → ℕ → EventBus A → Type 0 where
    fresh : Reach [] 0 new_bus
    started : {es : List (Event A)} {n : ℕ} {b : EventBus A} → Reach es n b → Reach es n (start b)
    subscribed :
        {es : List (Event A)} {n : ℕ} {b : EventBus A} (t : Text) (h : ℕ)
        → Reach es n b
        → Reach es n (subscribe t h b)
    left :
        {es : List (Event A)} {n : ℕ} {b : EventBus A} (t : Text) (h : ℕ)
        → Reach es n b
        → Reach es n (unsubscribe t h b)
    published :
        {es : List (Event A)} {n : ℕ} {b : EventBus A} (e : Event A)
        → Reach es n b
        → Reach (es ++ admitted e b) n (publish e b)
    taken : {es : List (Event A)} {n : ℕ} {b : EventBus A} → Reach es n b → Reach es n (take_next b)
    finished : {es : List (Event A)} {n : ℕ} {b : EventBus A} → Reach es n b → Reach es n (finish b)
    timed_out :
        {es : List (Event A)} {n : ℕ} {b : EventBus A} → Reach es n b → Reach es n (time_out b)
    stopped : {es : List (Event A)} {n : ℕ} {b : EventBus A} → Reach es n b → Reach es n (stop b)
    cancelled :
        {es : List (Event A)} {n : ℕ} {b : EventBus A} → Reach es n b → Reach es n (cancel b)
    interrupted :
        {es : List (Event A)} {n : ℕ} {b : EventBus A}
        → Reach es n b
        → b.handling ≢ 0
        → Reach es (suc n) (interrupt b)
