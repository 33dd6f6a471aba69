-- ===== src/Events/Bus.antt =====
-- `InMemoryEventBus` of events/in_memory_bus.py. A handler is an object of its own: the model keeps
-- the types that it asks for and the events that its `handle` has been given, in their order.
use quantitative_trading.Prelude.{
  Bool, ◌||◌, List, [], ◌∷◌, ◌++◌, String, str_eq, if◌then◌else◌, any, map,
}
use quantitative_trading.Contracts.Event.{EventEnvelope, type_name}

pub record Handler (F : Type 0) : Type 0 where
  pub event_types : List String
  pub handled : List (EventEnvelope F)

pub record Bus (F : Type 0) : Type 0 where
  pub handlers : List (Handler F)
  pub published : List (EventEnvelope F)

-- `not handler.event_types`
abbrev pub takes_all : List String → Bool
takes_all [] = Bool.true
takes_all (_ ∷ _) = Bool.false

module _ {F : Type 0} where
  abbrev pub accepts : List String → EventEnvelope F → Bool
  accepts types event = takes_all types || any (str_eq (type_name event.event_type)) types

  abbrev pub deliver : EventEnvelope F → Handler F → Handler F
  deliver event handler =
      if accepts handler.event_types event
      then record handler { handled = handler.handled ++ (event ∷ []) }
      else handler

  unfoldable pub add_handler : Handler F → Bus F → Bus F
  add_handler handler bus = record bus { handlers = bus.handlers ++ (handler ∷ []) }

  unfoldable pub publish : EventEnvelope F → Bus F → Bus F
  publish event bus = record {
    handlers = map (deliver event) bus.handlers;
    published = bus.published ++ (event ∷ []);
  }

  unfoldable pub publish_many : List (EventEnvelope F) → Bus F → Bus F
  unfolding publish
  publish_many [] bus = bus
  publish_many (event ∷ events) bus = publish_many events (publish event bus)

  unfoldable pub clear : Bus F → Bus F
  clear bus = record bus { published = [] }
