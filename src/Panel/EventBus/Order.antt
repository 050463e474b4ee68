-- ===== src/Panel/EventBus/Order.antt =====
-- Events are handled in the order in which they were published, each of them once.
use mathlib.Core.Path.{subst}
use scalp_tn_aaa.Base.{
  ℕ, suc, ◌+◌, ◌≤◌, ◌≡◌, ◌≢◌, ◌==◌, refl, sym, ◌∙◌, ap, Bool, true, false, List, [], ◌∷◌, ◌++◌, map,
  arith, length, length-append, Bool-cases, Option, none, some, inl, inr, if◌then◌else◌,
}
use scalp_tn_aaa.Base.Text.{Text}
use scalp_tn_aaa.Panel.EventBus.{
  Event, EventBus, Reach, fresh, started, subscribed, left, published, taken, finished, timed_out,
  stopped, cancelled, interrupted, start, subscribe, unsubscribe, unsubscribed, publish, take_next,
  take_on, finish, time_out, stop, cancel, interrupt, is_full, admitted, max_size, handlers,
  take_event,
}

module _ {A : Type 0} where
  -- The events that the worker took, and those that wait, are the admitted ones, in their order; the
  -- queue is within its bound.
  pub record IsFifo (es : List (Event A)) (calls : List (Event A × List ℕ)) (queue : List (Event A))
      : Type 0 where
    pub order : map (λ c. c.0) calls ++ queue ≡ es
    pub bound : length queue ≤ max_size

  abbrev IsFifoAt : List (Event A) → EventBus A → Type 0
  IsFifoAt es b = IsFifo es b.calls b.queue

  append_assoc : (xs ys zs : List (Event A)) → xs ++ (ys ++ zs) ≡ (xs ++ ys) ++ zs
  append_assoc [] ys zs = refl
  append_assoc (x ∷ xs) ys zs = ap (λ r. x ∷ r) (append_assoc xs ys zs)

  append_nil : (xs : List (Event A)) → xs ++ [] ≡ xs
  append_nil [] = refl
  append_nil (x ∷ xs) = ap (λ r. x ∷ r) (append_nil xs)

  taken_first :
      (cs : List (Event A × List ℕ)) (e : Event A) (hs : List ℕ) (q : List (Event A))
      → map (λ c. c.0) (cs ++ ((e, hs) ∷ [])) ++ q ≡ map (λ c. c.0) cs ++ e ∷ q
  taken_first [] e hs q = refl
  taken_first (c ∷ cs) e hs q = ap (λ r. c.0 ∷ r) (taken_first cs e hs q)

  publish-IsFifo :
      (e : Event A) (es : List (Event A)) (b : EventBus A)
      → IsFifoAt es b
      → IsFifoAt (es ++ admitted e b) (publish e b)
  unfolding publish
  publish-IsFifo e es b h = elim (Bool-cases (is_full b)) [
    | inl full ↦ rw full (record { order = h.order ∙ sym (append_nil es); bound = h.bound })
    | inr room ↦ rw room (record {
      order =
          append_assoc (map (λ c. c.0) b.calls) b.queue (e ∷ []) ∙ ap (λ r. r ++ (e ∷ [])) h.order;
      bound = ground (arith, length-append {0} b.queue (e ∷ []));
    })
  ]

  take-IsFifo :
      (es q : List (Event A)) (x : Event A) (b : EventBus A)
      → b.queue ≡ x ∷ q
      → IsFifoAt es b
      → IsFifoAt es (take_event x q b)
  take-IsFifo es q x b e h = record {
    order =
        taken_first b.calls x (handlers x.event_type b) q
        ∙ ap (λ r. map (λ c. c.0) b.calls ++ r) (sym e)
        ∙ h.order;
    bound = let k = subst (λ r. length r ≤ max_size) e h.bound in omega arith;
  }

  take_on-IsFifo :
      (es q : List (Event A)) (b : EventBus A)
      → b.queue ≡ q
      → IsFifoAt es b
      → IsFifoAt es (take_on q b)
  take_on-IsFifo es [] b e h = h
  take_on-IsFifo es (x ∷ q) b e h = take-IsFifo es q x b e h

  if-IsFifo :
      (es : List (Event A)) (t : Bool) (b c : EventBus A)
      → IsFifoAt es b
      → IsFifoAt es c
      → IsFifoAt es (if t then b else c)
  if-IsFifo es true b c h k = h
  if-IsFifo es false b c h k = k

  unsubscribed-IsFifo :
      (es : List (Event A)) (t : Text) (k : ℕ) (o : Option (List ℕ)) (b : EventBus A)
      → IsFifoAt es b
      → IsFifoAt es (unsubscribed t k o b)
  unsubscribed-IsFifo es t k none b h = h
  unsubscribed-IsFifo es t k (some hs) b h = h

  finish-IsFifo : (es : List (Event A)) (b : EventBus A) → IsFifoAt es b → IsFifoAt es (finish b)
  unfolding finish
  finish-IsFifo es b h = search (if-IsFifo)

  -- In every state that a bus can reach, by any interleaving of subscriptions, publications, starts,
  -- stops, and the steps and cancellations of its workers, the events that the workers took, followed
  -- by those that wait, are exactly the admitted ones, in the order of their publication, and at most
  -- 500 events wait.
  pub Reach-IsFifo :
      {es : List (Event A)} {n : ℕ} {b : EventBus A} → Reach es n b → IsFifo es b.calls b.queue
  unfolding start subscribe unsubscribe stop take_next time_out cancel interrupt
  Reach-IsFifo fresh = record { order = refl; bound = omega arith }
  Reach-IsFifo (started r) = Reach-IsFifo r
  Reach-IsFifo (subscribed t h r) = Reach-IsFifo r
  Reach-IsFifo (left t h r) = unsubscribed-IsFifo _ t h _ _ (Reach-IsFifo r)
  Reach-IsFifo (published e r) = publish-IsFifo e _ _ (Reach-IsFifo r)
  Reach-IsFifo (taken {es} {n} {b} r) =
      if-IsFifo es (b.waiting == 0) _ _ (Reach-IsFifo r)
        (take_on-IsFifo es b.queue b refl (Reach-IsFifo r))
  Reach-IsFifo (finished {es} {n} {b} r) = finish-IsFifo es b (Reach-IsFifo r)
  Reach-IsFifo (timed_out {es} {n} {b} r) =
      if-IsFifo es b.running _ _ (Reach-IsFifo r) (Reach-IsFifo r)
  Reach-IsFifo (stopped r) = Reach-IsFifo r
  Reach-IsFifo (cancelled r) = Reach-IsFifo r
  Reach-IsFifo (interrupted {es} {n} {b} r _) =
      if-IsFifo es (b.handling == 0) _ _ (Reach-IsFifo r) (Reach-IsFifo r)

  -- The queue's count of unfinished events, against the ones that wait and the ones in handling.
  pub record IsCounted (n unfinished handling : ℕ) (queue : List (Event A)) : Type 0 where
    pub at_most : unfinished ≤ length queue + handling
    pub at_least : length queue + handling ≤ unfinished + n

  abbrev IsCountedAt : ℕ → EventBus A → Type 0
  IsCountedAt n b = IsCounted n b.unfinished b.handling b.queue

  publish-IsCounted :
      (e : Event A) (n : ℕ) (b : EventBus A) → IsCountedAt n b → IsCountedAt n (publish e b)
  unfolding publish
  publish-IsCounted e n b h = elim (Bool-cases (is_full b)) [
    | inl full ↦ rw full h
    | inr room ↦ rw room (record {
      at_most = omega (arith, length-append {0} b.queue (e ∷ []), h.at_most);
      at_least = omega (arith, length-append {0} b.queue (e ∷ []), h.at_least);
    })
  ]

  take_on-IsCounted :
      (n : ℕ) (q : List (Event A)) (b : EventBus A)
      → b.queue ≡ q
      → IsCounted n b.unfinished b.handling q
      → IsCountedAt n (take_on q b)
  take_on-IsCounted n [] b e h = rw e h
  take_on-IsCounted n (x ∷ q) b e h = record {
    at_most = let k = h.at_most in omega arith;
    at_least = let k = h.at_least in omega arith;
  }

  if-IsCounted :
      (n : ℕ) (t : Bool) (b c : EventBus A)
      → IsCountedAt n b
      → IsCountedAt n c
      → IsCountedAt n (if t then b else c)
  if-IsCounted n true b c h k = h
  if-IsCounted n false b c h k = k

  finish-IsCounted : (n : ℕ) (b : EventBus A) → IsCountedAt n b → IsCountedAt n (finish b)
  unfolding finish
  finish-IsCounted n b h =
      let most = h.at_most in
      let least = h.at_least in record { at_most = ground arith; at_least = ground arith }

  interrupt-IsCounted :
      (n : ℕ) (b : EventBus A)
      → b.handling ≢ 0
      → IsCountedAt n b
      → IsCountedAt (suc n) (interrupt b)
  unfolding interrupt
  interrupt-IsCounted n b some_one h =
      let most = h.at_most in
      let least = h.at_least in record { at_most = ground arith; at_least = ground arith }

  unsubscribed-IsCounted :
      (n : ℕ) (t : Text) (k : ℕ) (o : Option (List ℕ)) (b : EventBus A)
      → IsCountedAt n b
      → IsCountedAt n (unsubscribed t k o b)
  unsubscribed-IsCounted n t k none b h = h
  unsubscribed-IsCounted n t k (some hs) b h = h

  -- In every state that a bus can reach, those in the middle of handling an event included, the count
  -- of unfinished events, on which a join waits, is never over the number of events that wait or are
  -- being handled, and below it by at most the number of events whose handling was interrupted: without
  -- an interruption the two agree.
  pub Reach-IsCounted :
      {es : List (Event A)} {n : ℕ} {b : EventBus A}
      → Reach es n b
      → IsCounted n b.unfinished b.handling b.queue
  unfolding start subscribe unsubscribe stop take_next time_out cancel
  Reach-IsCounted fresh = record { at_most = omega arith; at_least = omega arith }
  Reach-IsCounted (started r) = Reach-IsCounted r
  Reach-IsCounted (subscribed t h r) = Reach-IsCounted r
  Reach-IsCounted (left t h r) = unsubscribed-IsCounted _ t h _ _ (Reach-IsCounted r)
  Reach-IsCounted (published e r) = publish-IsCounted e _ _ (Reach-IsCounted r)
  Reach-IsCounted (taken {es} {n} {b} r) =
      if-IsCounted n (b.waiting == 0) _ _ (Reach-IsCounted r)
        (take_on-IsCounted n b.queue b refl (Reach-IsCounted r))
  Reach-IsCounted (finished {es} {n} {b} r) = finish-IsCounted n b (Reach-IsCounted r)
  Reach-IsCounted (timed_out {es} {n} {b} r) =
      if-IsCounted n b.running _ _ (Reach-IsCounted r) (Reach-IsCounted r)
  Reach-IsCounted (stopped r) = Reach-IsCounted r
  Reach-IsCounted (cancelled r) = Reach-IsCounted r
  Reach-IsCounted (interrupted {es} {n} {b} r h) = interrupt-IsCounted n b h (Reach-IsCounted r)
