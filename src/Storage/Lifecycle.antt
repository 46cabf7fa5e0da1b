-- ===== src/Storage/Lifecycle.antt =====
-- Reference holds and the retention policy of crates/temnion-storage/src/lifecycle.rs. A `BTreeSet` is
-- the list of its members in the order of insertion, since only membership is read. A `String` is
-- the list of its bytes. Numbers are sorted and deduplicated as in `Index.Morton`.
use temnion.Prelude.{
  ℕ, zero, suc, ◌+◌, ◌-◌, ◌++◌, List, [], ◌∷◌, Bool, false, ◌&&◌, ◌||◌, not, Option, none, some,
  ltb, ◌==◌, length, take, if◌then◌else◌,
}
use temnion.Format.{StoredEvent}
use temnion.Index.Morton.{sort_codes, dedup}

unfoldable pub contains_number : ℕ → List ℕ → Bool
contains_number x [] = false
contains_number x (y ∷ ys) = x == y || contains_number x ys

unfoldable pub set_insert : ℕ → List ℕ → List ℕ
set_insert x ys = if contains_number x ys then ys else ys ++ (x ∷ [])

pub record ReferenceHold : Type 0 where
  pub id : List ℕ
  pub reason : List ℕ
  pub held_sequences : List ℕ
  pub held_branches : List ℕ
  pub created_at_ticks : ℕ

abbrev pub new_hold : List ℕ → List ℕ → ℕ → ReferenceHold
new_hold id reason created_at = record {
  id = id;
  reason = reason;
  held_sequences = [];
  held_branches = [];
  created_at_ticks = created_at;
}

unfoldable pub hold_sequence : ℕ → ReferenceHold → ReferenceHold
hold_sequence seq h = record h { held_sequences = set_insert seq h.held_sequences }

-- The loop of `hold_range` from `s` on, over `count` numbers.
unfoldable pub hold_from : ℕ → ℕ → ReferenceHold → ReferenceHold
hold_from s zero h = h
hold_from s (suc count) h = hold_from (s + 1) count (hold_sequence s h)

unfoldable pub hold_range : ℕ → ℕ → ReferenceHold → ReferenceHold
hold_range start end_inclusive h = hold_from start (end_inclusive + 1 - start) h

unfoldable pub hold_branch : ℕ → ReferenceHold → ReferenceHold
hold_branch branch_id h = record h { held_branches = set_insert branch_id h.held_branches }

abbrev pub is_sequence_held : ℕ → ReferenceHold → Bool
is_sequence_held seq h = contains_number seq h.held_sequences

abbrev pub is_branch_held : ℕ → ReferenceHold → Bool
is_branch_held branch_id h = contains_number branch_id h.held_branches

pub record RetentionPolicy : Type 0 where
  pub max_age_ticks : Option ℕ
  pub max_retained_events : Option ℕ

unfoldable pub is_held : List ReferenceHold → ℕ → Bool
is_held [] seq = false
is_held (h ∷ holds) seq = is_sequence_held seq h || is_held holds seq

abbrev pub push_if : Bool → ℕ → List ℕ → List ℕ
push_if test seq candidates = if test then candidates ++ (seq ∷ []) else candidates

-- The loop over the events that are older than `max_age`.
unfoldable pub push_aged : ℕ → ℕ → List ReferenceHold → List StoredEvent → List ℕ → List ℕ
push_aged max_age current_ticks holds [] candidates = candidates
push_aged max_age current_ticks holds (ev ∷ events) candidates =
    push_aged max_age current_ticks holds events (
      push_if
        (ltb max_age (current_ticks - ev.times.valid.ticks) && not (is_held holds ev.id.sequence))
        ev.id.sequence candidates)

-- The loop over the events that are too many.
unfoldable pub push_excess : List ReferenceHold → List StoredEvent → List ℕ → List ℕ
push_excess holds [] candidates = candidates
push_excess holds (ev ∷ events) candidates = push_excess holds events (
    push_if (not (contains_number ev.id.sequence candidates) && not (is_held holds ev.id.sequence))
      ev.id.sequence candidates)

unfoldable pub aged_candidates :
    RetentionPolicy → List StoredEvent → ℕ → List ReferenceHold → List ℕ
aged_candidates policy events current_ticks holds = elim policy.max_age_ticks [
  | none ↦ []
  | some max_age ↦ push_aged max_age current_ticks holds events []
]

unfoldable pub excess_candidates :
    RetentionPolicy → List StoredEvent → List ReferenceHold → List ℕ → List ℕ
excess_candidates policy events holds candidates = elim policy.max_retained_events [
  | none ↦ candidates
  | some max_events ↦
      if ltb max_events (length events)
      then push_excess holds (take (length events - max_events) events) candidates
      else candidates
]

unfoldable pub evaluate_reclaimable :
    RetentionPolicy → List StoredEvent → ℕ → List ReferenceHold → List ℕ
evaluate_reclaimable policy events current_ticks holds = dedup (
    sort_codes
      (excess_candidates policy events holds (aged_candidates policy events current_ticks holds)))
