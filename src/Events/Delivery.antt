-- ===== src/Events/Delivery.antt =====
-- What the handlers of events/in_memory_bus.py are given.
use quantitative_trading.Prelude.{
  ◌≡◌, refl, List, [], ◌∷◌, ◌++◌, map, filter, append-nil, append_assoc, ap, Bool-cases, inl, inr,
  ◌∙◌,
}
use quantitative_trading.Contracts.Event.{EventEnvelope}
use quantitative_trading.Events.Bus.{Handler, Bus, accepts, deliver, publish, publish_many}

module _ {F : Type 0} where
  -- the handler after it was given what it accepts of the events
  abbrev pub given : List (EventEnvelope F) → Handler F → Handler F
  given events h = record h { handled = h.handled ++ filter (accepts h.event_types) events }

  given-deliver :
      (event : EventEnvelope F) (events : List (EventEnvelope F)) (h : Handler F)
      → given events (deliver event h) ≡ given (event ∷ events) h
  given-deliver event events h = elim (Bool-cases (accepts h.event_types event)) [
    | inl e ↦ rw e (
        ap (λ x. record h { handled = x })
          (append_assoc h.handled (event ∷ []) (filter (accepts h.event_types) events)))
    | inr e ↦ rw e refl
  ]

  map-given-deliver :
      (event : EventEnvelope F) (events : List (EventEnvelope F)) (hs : List (Handler F))
      → map (given events) (map (deliver event) hs) ≡ map (given (event ∷ events)) hs
  map-given-deliver event events [] = refl
  map-given-deliver event events (h ∷ hs) =
      rw (given-deliver event events h, map-given-deliver event events hs) refl

  map-given-nil : (hs : List (Handler F)) → map (given []) hs ≡ hs
  map-given-nil [] = refl
  map-given-nil (h ∷ hs) = rw (append-nil h.handled, map-given-nil hs) refl

  -- Publishing events one after the other gives every handler exactly those that it accepts, each
  -- once and in their order, and the bus remembers all of them.
  pub publish_many-given :
      (events : List (EventEnvelope F)) (bus : Bus F)
      → ((publish_many events bus).handlers ≡ map (given events) bus.handlers)
        × ((publish_many events bus).published ≡ bus.published ++ events)
  unfolding publish_many publish
  publish_many-given [] bus =
      (rw (map-given-nil bus.handlers) refl, rw (append-nil bus.published) refl)
  publish_many-given (event ∷ events) bus =
      let (handled, published) = publish_many-given events (publish event bus) in
      (
        handled ∙ map-given-deliver event events bus.handlers,
        published ∙ append_assoc bus.published (event ∷ []) events,
      )
