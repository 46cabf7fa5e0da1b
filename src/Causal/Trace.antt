-- ===== src/Causal/Trace.antt =====
-- `trace_causes` and `trace_effects` of crates/temnion-causal/src/lib.rs.
use temnion.Prelude.{ℕ, zero, suc, ◌+◌, List, [], ◌∷◌, ◌++◌, length, if◌then◌else◌, leb}
use temnion.Core.{EventId}
use temnion.Causal.{Map, CausalGraph, store, member, immediate_causes, immediate_effects, listed}

pub record CausalTrace : Type 0 where
  pub events : List EventId
  pub depths : Map ℕ
  pub edges : List (EventId × EventId)

-- What the loop carries: the trace, the visited set, and the queue with depths.
pub record Tracing : Type 0 where
  pub trace : CausalTrace
  pub visited : List EventId
  pub queue : List (EventId × ℕ)

-- An edge from `curr`, which stands at `depth`, to `event`.
unfoldable pub follow : EventId → ℕ → EventId → Tracing → Tracing
follow curr depth event t =
    let edges = t.trace.edges ++ (curr, event) ∷ [] in
    if member event t.visited
    then record t { trace = record t.trace { edges = edges } }
    else record {
      trace = record {
        events = t.trace.events ++ event ∷ [];
        depths = store event (depth + 1) t.trace.depths;
        edges = edges;
      };
      visited = event ∷ t.visited;
      queue = t.queue ++ (event, depth + 1) ∷ [];
    }

unfoldable pub follow_all : EventId → ℕ → List EventId → Tracing → Tracing
follow_all curr depth [] t = t
follow_all curr depth (event ∷ events) t = follow_all curr depth events (follow curr depth event t)

-- One turn of the loop, its entry taken off the queue.
unfoldable pub trace_turn : (EventId → List EventId) → ℕ → EventId → ℕ → Tracing → Tracing
trace_turn next max_depth curr depth t =
    if leb max_depth depth then t else follow_all curr depth (next curr) t

unfoldable pub trace_from : (EventId → List EventId) → ℕ → ℕ → Tracing → CausalTrace
trace_from next max_depth zero t = t.trace
trace_from next max_depth (suc fuel) t = elim (t.queue) [
  | [] ↦ t.trace
  | (curr, depth) ∷ queue ↦
      trace_from next max_depth fuel
        (trace_turn next max_depth curr depth (record t { queue = queue }))
]

abbrev pub trace_start : EventId → Tracing
trace_start root = record {
  trace = record { events = root ∷ []; depths = (root, 0) ∷ []; edges = [] };
  visited = root ∷ [];
  queue = (root, 0) ∷ [];
}

-- The queue takes the root, and a listed cause at most once.
unfoldable pub trace_causes : CausalGraph → EventId → ℕ → CausalTrace
trace_causes g root max_depth =
    trace_from (immediate_causes g) max_depth (suc (length (listed g.causes))) (trace_start root)

unfoldable pub trace_effects : CausalGraph → EventId → ℕ → CausalTrace
trace_effects g root max_depth =
    trace_from (immediate_effects g) max_depth (suc (length (listed g.effects))) (trace_start root)
