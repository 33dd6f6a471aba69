-- ===== src/Replay/Roots.antt =====
-- The roots of the graph of replay/graph.py.
use quantitative_trading.Prelude.{
  ◌≡◌, refl, ap, ◌∙◌, Bool, false, not, ◌||◌, ◌&&◌, All, Option, none, some, List, [], ◌∷◌, ◌++◌,
  String, str_eq, eq_refl, eq_iff, filter, map, append-nil, append_assoc, Bool-cases, Option-cases,
  inl, inr, arith,
}
use quantitative_trading.Contracts.Event.{EventEnvelope}
use quantitative_trading.Runtime.Causation.{names}
use quantitative_trading.Replay.Graph.{
  Node, Edge, node_of, edge_of, collect, is_target, build_causal_graph,
}

abbrev pub is_caused : Option String → Bool
is_caused none = false
is_caused (some cause) = not (str_eq cause "")

module _ {F : Type 0} where
  abbrev edges_of : List (EventEnvelope F) → List Edge
  edges_of [] = []
  edges_of (e ∷ es) = edge_of e e.causation_id ++ edges_of es

  collect_lem :
      (es : List (EventEnvelope F)) (nodes : List Node) (edges : List Edge)
      → collect es (nodes, edges) ≡ (nodes ++ map node_of es, edges ++ edges_of es)
  unfolding collect
  collect_lem [] nodes edges = rw (append-nil nodes, append-nil edges) refl
  collect_lem (e ∷ es) nodes edges =
      collect_lem es (nodes ++ (node_of e ∷ [])) (edges ++ edge_of e e.causation_id)
      ∙ rw
          (
            append_assoc nodes (node_of e ∷ []) (map node_of es),
            append_assoc edges (edge_of e e.causation_id) (edges_of es),
          )
          refl

  -- an event with this id that has a cause
  abbrev pub has_cause : List (EventEnvelope F) → String → Bool
  has_cause [] i = false
  has_cause (e ∷ es) i = (is_caused e.causation_id && str_eq e.event_id i) || has_cause es i

  target_lem :
      (es : List (EventEnvelope F)) (n : Node) → is_target (edges_of es) n ≡ has_cause es n.id
  target_lem [] n = refl
  target_lem (e ∷ es) n = elim (Option-cases e.causation_id) [
    | inl h ↦ rw (edges_of, h) (target_lem es n)
    | inr (c, h) ↦ elim (Bool-cases (str_eq c "")) [
      | inl k ↦ rw (edges_of, h, k) (target_lem es n)
      | inr k ↦ rw (edges_of, h, k, target_lem es n) refl
    ]
  ]

  -- the roots over a part of the events
  roots_part :
      (edges : List Edge) (all es : List (EventEnvelope F))
      → ((n : Node) → is_target edges n ≡ has_cause all n.id)
      → map (λ n. n.id) (filter (λ n. not (is_target edges n)) (map node_of es))
        ≡ map (λ e. e.event_id) (filter (λ e. not (has_cause all e.event_id)) es)
  roots_part edges all [] h = refl
  roots_part edges all (e ∷ es) h = elim (Bool-cases (has_cause all e.event_id)) [
    | inl c ↦ rw (h (node_of e), c) (roots_part edges all es h)
    | inr c ↦ rw (h (node_of e), c) (ap (λ is. e.event_id ∷ is) (roots_part edges all es h))
  ]

  -- no two events have the same id
  abbrev pub AreDistinct : List (EventEnvelope F) → Type 0
  AreDistinct [] = Unit
  AreDistinct (e ∷ es) = (names e.event_id es ≡ false) × AreDistinct es

  unnamed : (i : String) (es : List (EventEnvelope F)) → names i es ≡ false → has_cause es i ≡ false
  unnamed i [] h = refl
  unnamed i (e ∷ es) h = ground (arith, unnamed i es)

  -- whether its id has a cause is whether the event has one
  abbrev Agrees : List (EventEnvelope F) → EventEnvelope F → Type 0
  Agrees all e = has_cause all e.event_id ≡ is_caused e.causation_id

  widen :
      (d : EventEnvelope F) (all es : List (EventEnvelope F))
      → names d.event_id es ≡ false
      → All (Agrees all) es
      → All (Agrees (d ∷ all)) es
  widen d all [] h k = tt
  widen d all (e ∷ es) h (k, ks) = (
    ground (arith, eq_iff e.event_id d.event_id, eq_iff d.event_id e.event_id),
    widen d all es (ground arith) ks,
  )

  All-Agrees : (es : List (EventEnvelope F)) → AreDistinct es → All (Agrees es) es
  All-Agrees [] h = tt
  All-Agrees (e ∷ es) (new, h) = (
    ground (arith, unnamed e.event_id es new, eq_refl e.event_id),
    widen e es es new (All-Agrees es h),
  )

  filter_agree :
      (all es : List (EventEnvelope F))
      → All (Agrees all) es
      → filter (λ e. not (has_cause all e.event_id)) es
        ≡ filter (λ e. not (is_caused e.causation_id)) es
  filter_agree all [] h = refl
  filter_agree all (e ∷ es) (h, hs) = rw (h, filter_agree all es hs) refl

  -- The roots of the graph of events with different ids are those that name no cause, or the empty text,
  -- in their order.
  pub roots_lem :
      (es : List (EventEnvelope F))
      → AreDistinct es
      → (build_causal_graph es).roots
        ≡ map (λ e. e.event_id) (filter (λ e. not (is_caused e.causation_id)) es)
  unfolding build_causal_graph
  roots_lem es h = rw (collect_lem es [] []) (
      roots_part (edges_of es) es es (target_lem es)
      ∙ ap (map (λ e. e.event_id)) (filter_agree es es (All-Agrees es h)))
