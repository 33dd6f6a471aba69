-- ===== src/Replay/Graph.antt =====
-- `build_causal_graph` of replay/graph.py. Both branches that append an edge append the same one; an
-- empty text as the cause is no cause.
use quantitative_trading.Prelude.{
  Bool, not, if◌then◌else◌, Option, none, some, List, [], ◌∷◌, ◌++◌, String, str_eq, any, filter,
  map,
}
use quantitative_trading.Contracts.State.{Instant}
use quantitative_trading.Contracts.Event.{EventEnvelope, EventFamily, EventType}

pub record Node : Type 0 where
  pub id : String
  pub event_type : EventType
  pub event_family : EventFamily
  pub event_time : Instant

-- `{"from": …, "to": …, "relation": "caused_by"}`
pub record Edge : Type 0 where
  pub from : String
  pub to : String

pub record Graph : Type 0 where
  pub nodes : List Node
  pub edges : List Edge
  pub roots : List String

module _ {F : Type 0} where
  abbrev pub node_of : EventEnvelope F → Node
  node_of e = record {
    id = e.event_id;
    event_type = e.event_type;
    event_family = e.event_family;
    event_time = e.event_time;
  }

  abbrev pub edge_of : EventEnvelope F → Option String → List Edge
  edge_of e none = []
  edge_of e (some cause) =
      if str_eq cause "" then [] else record { from = cause; to = e.event_id } ∷ []

  -- the loop over the events
  unfoldable pub collect : List (EventEnvelope F) → List Node × List Edge → List Node × List Edge
  collect [] so_far = so_far
  collect (e ∷ es) (nodes, edges) =
      collect es (nodes ++ (node_of e ∷ []), edges ++ edge_of e e.causation_id)

abbrev pub is_target : List Edge → Node → Bool
is_target edges node = any (λ e. str_eq e.to node.id) edges

unfoldable pub build_causal_graph : {F : Type 0} → List (EventEnvelope F) → Graph
unfolding collect
build_causal_graph events =
    let (nodes, edges) = collect events ([], []) in
    record {
      nodes = nodes;
      edges = edges;
      roots = map (λ n. n.id) (filter (λ n. not (is_target edges n)) nodes);
    }
