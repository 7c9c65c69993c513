-- ===== src/Ack/Service.antt =====
-- acknowledgements.rs: `AckService::spin` and `ack_request`.
use lading.Prelude.{
  ℕ, ◌-◌, ◌/◌, List, [], ◌∷◌, Bool, true, false, Outcome, done, ◌>>◌, assert, ltb, ◌==◌,
  if◌then◌else◌,
}
use lading.Prelude.Map.{Map, insert, remove, map_values}

-- What the request to the server comes to: it fails, or takes longer than a second, or is answered
-- with another status than OK, or with a body that cannot be read; or it is answered with the status
-- of each id. An error of `ack_request` is dropped by `spin`.
pub data Answer : Type 0 where
  failed timed_out other_status unreadable : Answer
  acks : List (ℕ × Bool) → Answer

-- the loop that removes what is acknowledged
unfoldable pub remove_acked : Map ℕ → List (ℕ × Bool) → Map ℕ
remove_acked ack_ids [] = ack_ids
remove_acked ack_ids (status ∷ rest) =
    remove_acked (if status.1 then remove ack_ids status.0 else ack_ids) rest

-- the ids that have no retries left, in the loop over the ids that remain
unfoldable pub exhausted : Map ℕ → List ℕ
exhausted [] = []
exhausted (entry ∷ ack_ids) =
    let rest = exhausted ack_ids in if entry.1 == 0 then entry.0 ∷ rest else rest

-- the loop that removes them
unfoldable pub remove_all : Map ℕ → List ℕ → Map ℕ
remove_all ack_ids [] = ack_ids
remove_all ack_ids (i ∷ is) = remove_all (remove ack_ids i) is

-- `ack_request`
unfoldable pub ack_request : Map ℕ → Answer → Map ℕ
unfolding remove_acked exhausted remove_all
ack_request ack_ids (acks statuses) =
    let remaining = remove_acked ack_ids statuses in
    remove_all (map_values remaining (λ retries. retries - 1)) (exhausted remaining)
ack_request ack_ids failed = ack_ids
ack_request ack_ids timed_out = ack_ids
ack_request ack_ids other_status = ack_ids
ack_request ack_ids unreadable = ack_ids

-- What the loop of `spin` selects: a new id, the end of the ids, or a tick of the timer with the
-- answer to the request that it makes. A tick is selected only while there are ids.
pub data Event : Type 0 where
  receive : ℕ → Event
  closed : Event
  tick : Answer → Event

unfoldable pub is_empty : Map ℕ → Bool
is_empty [] = true
is_empty (entry ∷ ack_ids) = false

unfoldable pub spin_loop : ℕ → Map ℕ → List Event → Map ℕ
unfolding ack_request is_empty
spin_loop retries ack_ids [] = ack_ids
spin_loop retries ack_ids (receive i ∷ events) = spin_loop retries (insert ack_ids i retries) events
spin_loop retries ack_ids (closed ∷ events) = ack_ids
spin_loop retries ack_ids (tick answer ∷ events) =
    spin_loop retries (if is_empty ack_ids then ack_ids else ack_request ack_ids answer) events

-- `AckService::spin`: the ids that are outstanding when the events have been handled. An interval of
-- zero panics, in the timer and in the division.
unfoldable pub spin : ℕ → ℕ → List Event → Outcome (Map ℕ)
unfolding spin_loop
spin ack_timeout_seconds ack_query_interval_seconds events = do
  assert (ltb 0 ack_query_interval_seconds)
  done (spin_loop (ack_timeout_seconds / ack_query_interval_seconds) [] events)
