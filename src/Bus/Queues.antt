-- ===== src/Bus/Queues.antt =====
-- The queues of the bus under any sequence of steps of its producers and consumers.
use kabot.Base.{
  List-cases, inl, inr, List, [], ◌∷◌, ◌++◌, ◌≡◌, refl, sym, none, some, append_assoc, append-nil,
  arith, String, str_eq, if◌then◌else◌,
}
use kabot.Base.Dict.{lookup-insert}
use kabot.Bus.{
  InboundMessage, OutboundMessage, MessageBus, publish_inbound, publish_outbound,
  try_consume_inbound, try_consume_outbound, subscribe_outbound, callbacks_of,
}

-- A step of a channel thread, of the registry's worker or of a dispatcher.
pub data BusStep : Type 0 where
  publishes_inbound : InboundMessage → BusStep
  consumes_inbound : BusStep
  publishes_outbound : OutboundMessage → BusStep
  consumes_outbound : BusStep

abbrev pub published_in : List BusStep → List InboundMessage
published_in [] = []
published_in (publishes_inbound msg ∷ steps) = msg ∷ published_in steps
published_in (consumes_inbound ∷ steps) = published_in steps
published_in (publishes_outbound msg ∷ steps) = published_in steps
published_in (consumes_outbound ∷ steps) = published_in steps

abbrev pub published_out : List BusStep → List OutboundMessage
published_out [] = []
published_out (publishes_outbound msg ∷ steps) = msg ∷ published_out steps
published_out (consumes_outbound ∷ steps) = published_out steps
published_out (publishes_inbound msg ∷ steps) = published_out steps
published_out (consumes_inbound ∷ steps) = published_out steps

-- The bus, with the messages that were consumed so far.
pub record Run (Callback : Type 0) : Type 0 where
  pub bus : MessageBus Callback
  pub got_in : List InboundMessage
  pub got_out : List OutboundMessage

published_in_step :
    (s : BusStep) (ss : List BusStep)
    → (published_in (s ∷ ss) ≡ published_in (s ∷ []) ++ published_in ss)
      × (published_out (s ∷ ss) ≡ published_out (s ∷ []) ++ published_out ss)
published_in_step (publishes_inbound msg) ss = (refl, refl)
published_in_step (publishes_outbound msg) ss = (refl, refl)
published_in_step consumes_inbound ss = (refl, refl)
published_in_step consumes_outbound ss = (refl, refl)

module _ {Callback : Type 0} where
  pub step : Run Callback → BusStep → Run Callback
  step r (publishes_inbound msg) = record r { bus = publish_inbound r.bus msg }
  step r (publishes_outbound msg) = record r { bus = publish_outbound r.bus msg }
  step r consumes_inbound = elim (try_consume_inbound r.bus) [
    | none ↦ r
    | some (msg, bus) ↦ record r { bus = bus; got_in = r.got_in ++ msg ∷ [] }
  ]
  step r consumes_outbound = elim (try_consume_outbound r.bus) [
    | none ↦ r
    | some (msg, bus) ↦ record r { bus = bus; got_out = r.got_out ++ msg ∷ [] }
  ]

  pub steps : Run Callback → List BusStep → Run Callback
  steps r [] = r
  steps r (s ∷ ss) = steps (step r s) ss

  step_fifo :
      (r : Run Callback) (s : BusStep)
      → ((step r s).got_in ++ (step r s).bus.inbound
          ≡ (r.got_in ++ r.bus.inbound) ++ published_in (s ∷ []))
        × ((step r s).got_out ++ (step r s).bus.outbound
            ≡ (r.got_out ++ r.bus.outbound) ++ published_out (s ∷ []))
  unfolding step publish_inbound publish_outbound try_consume_inbound try_consume_outbound
  step_fifo r (publishes_inbound msg) =
      (sym (append_assoc r.got_in r.bus.inbound (msg ∷ [])), sym (append-nil _))
  step_fifo r (publishes_outbound msg) =
      (sym (append-nil _), sym (append_assoc r.got_out r.bus.outbound (msg ∷ [])))
  step_fifo r consumes_inbound = elim (List-cases r.bus.inbound) [
    | inl e ↦
        ground
          (arith, append-nil (r.got_in ++ r.bus.inbound), append-nil (r.got_out ++ r.bus.outbound))
    | inr (msg, rest, e) ↦ ground (
      arith,
      append-nil (r.got_in ++ r.bus.inbound),
      append-nil (r.got_out ++ r.bus.outbound),
      append_assoc r.got_in (msg ∷ []) rest,
    )
  ]
  step_fifo r consumes_outbound = elim (List-cases r.bus.outbound) [
    | inl e ↦
        ground
          (arith, append-nil (r.got_in ++ r.bus.inbound), append-nil (r.got_out ++ r.bus.outbound))
    | inr (msg, rest, e) ↦ ground (
      arith,
      append-nil (r.got_in ++ r.bus.inbound),
      append-nil (r.got_out ++ r.bus.outbound),
      append_assoc r.got_out (msg ∷ []) rest,
    )
  ]

  -- Whatever the threads do and in whatever order, in each direction the messages consumed and then
  -- those still queued are the messages that were there and then those published, in their order: no
  -- message is lost, repeated or overtaken.
  pub steps_fifo :
      (r : Run Callback) (ss : List BusStep)
      → ((steps r ss).got_in ++ (steps r ss).bus.inbound
          ≡ (r.got_in ++ r.bus.inbound) ++ published_in ss)
        × ((steps r ss).got_out ++ (steps r ss).bus.outbound
            ≡ (r.got_out ++ r.bus.outbound) ++ published_out ss)
  unfolding steps
  steps_fifo r [] = (sym (append-nil _), sym (append-nil _))
  steps_fifo r (s ∷ ss) =
      let now = step_fifo r s in
      let later = steps_fifo (step r s) ss in
      let split = published_in_step s ss in
      (
        cc (
          now.0,
          later.0,
          split.0,
          append_assoc (r.got_in ++ r.bus.inbound) (published_in (s ∷ [])) (published_in ss),
        ),
        cc (
          now.1,
          later.1,
          split.1,
          append_assoc (r.got_out ++ r.bus.outbound) (published_out (s ∷ [])) (published_out ss),
        ),
      )

  -- A dispatched message goes to the callbacks of its channel in the order of their subscription: a
  -- new one comes last, and other channels keep theirs.
  pub callbacks_of-subscribe :
      (b : MessageBus Callback) (channel other : String) (callback : Callback)
      → callbacks_of (subscribe_outbound b channel callback) other ≡ (
          if str_eq channel other
          then callbacks_of b channel ++ callback ∷ []
          else callbacks_of b other)
  unfolding subscribe_outbound
  callbacks_of-subscribe b channel other callback =
      ground
        (arith, lookup-insert channel other (callbacks_of b channel ++ callback ∷ []) b.subscribers)
