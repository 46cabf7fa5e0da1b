-- ===== src/Runtime/Tests.antt =====
-- Virtual shards and the pressure controller of crates/temnion-runtime/src/lib.rs at concrete inputs.
use temnion.Prelude.{
  ℕ, ◌≡◌, refl, List, [], ◌∷◌, ◌>>=◌, none, true, false, ok, err, map, map_get, map_insert,
}
use temnion.Runtime.{seal, index, partition_not_found, invalid_configuration, no_partitions}
use temnion.Runtime.Pressure.{
  new_controller, set_queue_depth, pressure_level, should_throttle, should_yield, critical,
}
use temnion.Runtime.Shards.{
  modular, new_modular, route_by, RuntimeEvent, numbered, append_to, RuntimeFilter, matches,
  VirtualShardCoordinator, partitions_of, new_coordinator, append, merge_before, insert_event,
  sort_events, matching, gather, fanout_query,
}

-- An event of source 1 about an entity of the given shard.
abbrev event : ℕ → ℕ → RuntimeEvent
event shard ticks = record {
  id = record { source = 1; epoch = 0; sequence = 9 };
  entity = record { shard = shard; slot = 0; generation = 0 };
  schema = 4;
  times = record {
    valid = record { clock = 0; ticks = ticks };
    observed = none;
    known = record { clock = 0; ticks = 0 };
  };
  payload = [];
}

abbrev two : VirtualShardCoordinator
unfolding partitions_of map_insert
two = new_coordinator (record { policy = modular 2 }) (0 ∷ 1 ∷ [])

abbrev every : RuntimeFilter
every = record { entity = none; schema = none; clock = none; min_tick = none; max_tick = none }

abbrev ticks_of : List RuntimeEvent → List ℕ
ticks_of events = map (λ e. e.times.valid.ticks) events

-- Events of two partitions come merged by their valid time.
merged :
    ticks_of (
      fanout_query every
        ((append (event 0 30) >>= λ _. append (event 1 20) >>= λ _. append (event 2 10)) two).1)
    ≡ 10 ∷ 20 ∷ 30 ∷ []
unfolding two partitions_of map_insert map_get append append_to route_by fanout_query gather
    matching matches sort_events insert_event merge_before
merged = refl

-- Each partition counts for itself: events of one source in two partitions get the same identity,
-- and at the same valid time neither comes before the other.
same_identity :
    ((append (event 0 10) two).0 ≡ ok (0, 0))
    × ((append (event 1 10) two).0 ≡ ok (1, 0))
    × (merge_before (numbered 0 (event 0 10)) (numbered 0 (event 1 10)) ≡ false)
    × (merge_before (numbered 0 (event 1 10)) (numbered 0 (event 0 10)) ≡ false)
unfolding two partitions_of map_insert map_get append append_to route_by merge_before
same_identity = (refl, refl, refl, refl)

no_such_partition :
    (append (event 5 10) (new_coordinator (record { policy = modular 8 }) (0 ∷ []))).0
    ≡ err (partition_not_found 5)
unfolding partitions_of map_insert map_get append route_by
no_such_partition = refl

none_to_route : new_modular 0 ≡ err (invalid_configuration no_partitions)
unfolding new_modular
none_to_route = refl

pressed :
    (should_throttle (set_queue_depth 70 (new_controller 100)) ≡ true)
    × (should_yield (set_queue_depth 70 (new_controller 100)) seal ≡ false)
    × (should_yield (set_queue_depth 40 (new_controller 100)) index ≡ true)
    × (pressure_level (set_queue_depth 90 (new_controller 100)) ≡ critical)
unfolding should_throttle should_yield pressure_level
pressed = (refl, refl, refl, refl)
