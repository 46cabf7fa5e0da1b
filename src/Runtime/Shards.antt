-- ===== src/Runtime/Shards.antt =====
-- Virtual shards of crates/temnion-runtime/src/lib.rs: the router, the partitions and their
-- coordinator.
use temnion.Prelude.{
  ℕ, ◌+◌, ◌%◌, List, [], ◌∷◌, ◌++◌, Option, none, some, Bool, true, not, ◌&&◌, ◌||◌, ◌==◌, ltb,
  Outcome, ok, err, panic, and_then, Exec, ◌>>=◌, asks, ok_or, length, u64_max, if◌then◌else◌, Map,
  map_get, map_insert, map_values,
}
use temnion.Core.{EntityId, EventId, EventTimes, SchemaId, ShardId, ClockId, entity_eq}
use temnion.Runtime.{
  RuntimeError, invalid_configuration, no_partitions, empty_mapping, partition_not_found,
}

abbrev pub VirtualShardId : Type 0
VirtualShardId = ℕ

pub data ShardRoutingPolicy : Type 0 where
  modular : ℕ → ShardRoutingPolicy
  explicit : Map VirtualShardId → ShardRoutingPolicy

pub record ShardRouter : Type 0 where
  pub policy : ShardRoutingPolicy

unfoldable pub new_modular : ℕ → Outcome RuntimeError ShardRouter
new_modular partition_count =
    if partition_count == 0
    then err (invalid_configuration no_partitions)
    else ok (record { policy = modular partition_count })

unfoldable pub new_explicit : Map VirtualShardId → Outcome RuntimeError ShardRouter
new_explicit mapping =
    if length mapping == 0
    then err (invalid_configuration empty_mapping)
    else ok (record { policy = explicit mapping })

abbrev shard_or_zero : Option VirtualShardId → VirtualShardId
shard_or_zero none = 0
shard_or_zero (some id) = id

unfoldable pub route_by : ShardRoutingPolicy → ShardId → VirtualShardId
route_by (modular count) shard = shard % count
route_by (explicit mapping) shard = shard_or_zero (map_get shard mapping)

abbrev pub route : ShardRouter → ShardId → VirtualShardId
route router shard = route_by router.policy shard

pub record RuntimeEvent : Type 0 where
  pub id : EventId
  pub entity : EntityId
  pub schema : SchemaId
  pub times : EventTimes
  pub payload : List ℕ

pub record VirtualShardPartition : Type 0 where
  pub id : VirtualShardId
  pub events : List RuntimeEvent
  pub next_sequence : ℕ

abbrev pub new_partition : VirtualShardId → VirtualShardPartition
new_partition id = record { id = id; events = []; next_sequence = 0 }

-- The event under the identity that its partition gives it.
abbrev pub numbered : ℕ → RuntimeEvent → RuntimeEvent
numbered seq event = record event {
  id = record { source = event.id.source; epoch = event.id.epoch; sequence = seq };
}

-- `VirtualShardPartition::append`; a `u64` that overflows panics.
unfoldable pub append_to : RuntimeEvent → Exec VirtualShardPartition RuntimeError ℕ
append_to event p =
    let seq = p.next_sequence in
    let pushed = record p { events = p.events ++ numbered seq event ∷ [] } in
    if seq == u64_max then (panic, pushed) else (ok seq, record pushed { next_sequence = seq + 1 })

pub record RuntimeFilter : Type 0 where
  pub entity : Option EntityId
  pub schema : Option SchemaId
  pub clock : Option ClockId
  pub min_tick : Option ℕ
  pub max_tick : Option ℕ

-- A test of an optional criterion, which passes where there is none.
abbrev pub unless_fails {ℓ} : {A : Type ℓ} → Option A → (A → Bool) → Bool
unless_fails none test = true
unless_fails (some a) test = test a

-- The ticks are tested only where a clock is given.
unfoldable pub matches : RuntimeFilter → RuntimeEvent → Bool
matches filter event =
    unless_fails filter.entity (λ e. entity_eq event.entity e)
    && (unless_fails filter.schema (λ s. event.schema == s)
        && unless_fails filter.clock (λ c.
          event.times.valid.clock == c
          && (unless_fails filter.min_tick (λ t. not (ltb event.times.valid.ticks t))
              && unless_fails filter.max_tick (λ t. not (ltb t event.times.valid.ticks)))))

pub record VirtualShardCoordinator : Type 0 where
  pub router : ShardRouter
  pub partitions : Map VirtualShardPartition

unfoldable pub partitions_of :
    List VirtualShardId → Map VirtualShardPartition → Map VirtualShardPartition
partitions_of [] m = m
partitions_of (id ∷ ids) m = partitions_of ids (map_insert id (new_partition id) m)

abbrev pub new_coordinator : ShardRouter → List VirtualShardId → VirtualShardCoordinator
new_coordinator router ids = record { router = router; partitions = partitions_of ids [] }

-- What `append` does with the partition of the event.
abbrev pub append_in :
    VirtualShardId
    → RuntimeEvent
    → VirtualShardPartition
    → Exec VirtualShardCoordinator RuntimeError (VirtualShardId × ℕ)
append_in target event p c =
    let (outcome, p) = append_to event p in
    (
      and_then outcome (λ seq. ok (target, seq)),
      record c { partitions = map_insert target p c.partitions },
    )

unfoldable pub append :
    RuntimeEvent → Exec VirtualShardCoordinator RuntimeError (VirtualShardId × ℕ)
append event c =
    let target = route c.router event.entity.shard in
    (asks (λ c. ok_or (map_get target c.partitions) (partition_not_found target))
        >>= append_in target event)
      c

unfoldable pub total_events : List VirtualShardPartition → ℕ
total_events [] = 0
total_events (p ∷ partitions) = length p.events + total_events partitions

-- The order of the merge: valid clock, valid ticks, source, epoch, sequence.
unfoldable pub merge_before : RuntimeEvent → RuntimeEvent → Bool
merge_before a b =
    let then_by = λ (x y : ℕ) (rest : Bool). ltb x y || (x == y && rest) in
    then_by a.times.valid.clock b.times.valid.clock (
      then_by a.times.valid.ticks b.times.valid.ticks (
        then_by a.id.source b.id.source
          (then_by a.id.epoch b.id.epoch (ltb a.id.sequence b.id.sequence))))

unfoldable pub insert_event : RuntimeEvent → List RuntimeEvent → List RuntimeEvent
insert_event e [] = e ∷ []
insert_event e (x ∷ xs) = if merge_before x e then x ∷ insert_event e xs else e ∷ x ∷ xs

unfoldable pub sort_events : List RuntimeEvent → List RuntimeEvent
sort_events [] = []
sort_events (e ∷ events) = insert_event e (sort_events events)

unfoldable pub matching : RuntimeFilter → List RuntimeEvent → List RuntimeEvent
matching filter [] = []
matching filter (e ∷ events) =
    let rest = matching filter events in if matches filter e then e ∷ rest else rest

unfoldable pub gather : RuntimeFilter → List VirtualShardPartition → List RuntimeEvent
gather filter [] = []
gather filter (p ∷ partitions) = matching filter p.events ++ gather filter partitions

-- `VirtualShardCoordinator::fanout_query`. Events that compare equal may come in any order; here
-- they come in the order of their partitions.
unfoldable pub fanout_query : RuntimeFilter → VirtualShardCoordinator → List RuntimeEvent
fanout_query filter c = sort_events (gather filter (map_values c.partitions))
