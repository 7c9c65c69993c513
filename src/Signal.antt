-- ===== src/Signal.antt =====
-- lading_signal/src/lib.rs: a broadcaster that signals a phase once, and its watchers.
-- Nothing is ever sent on the broadcast channel: that its sender has been dropped is the signal, so
-- a receiver finds it either empty or closed. What the watchers share is the peer count, whether the
-- channel is closed, and the calls of `notify_waiters` that are still to be made.
mod Exchange
pub mod System
mod Peers
mod Wakeup
mod Tests
use lading.Prelude.{
  ℕ, zero, suc, ◌+◌, ◌-◌, ◌%◌, ◌^◌, Bool, true, false, Option, some, none, ltb, if◌then◌else◌, not,
  ◌&&◌,
}

pub record Shared : Type 0 where
  pub peers : ℕ
  pub closed : Bool
  pub pending : ℕ

pub record Watcher : Type 0 where
  pub signal_received : Bool
  pub peer_count_decreased : Bool
  pub registered : Bool

-- `signal`: the watcher, and what it shares with the broadcaster
abbrev pub first_watcher : Watcher
first_watcher = record { signal_received = false; peer_count_decreased = false; registered = true }

abbrev pub first_shared : Shared
first_shared = record { peers = 1; closed = false; pending = 0 }

-- the loop of `decrease_peer_count`: a positive count goes down by one, and the broadcaster is to be
-- notified
unfoldable pub take_peer : Shared → Shared
take_peer s = if ltb 0 s.peers then record s { peers = s.peers - 1; pending = s.pending + 1 } else s

-- `decrease_peer_count`
unfoldable pub decrease_peer_count : Watcher → Shared → Watcher × Shared
unfolding take_peer
decrease_peer_count w s =
    if not w.registered
    then (w, s)
    else if w.peer_count_decreased
    then (w, s)
    else (record w { peer_count_decreased = true }, take_peer s)

-- the arm of a channel that is closed: the watcher logs off and has received the signal
unfoldable pub receive : Watcher → Shared → Watcher × Shared
unfolding decrease_peer_count
receive w s = let (w', s') = decrease_peer_count w s in (record w' { signal_received = true }, s')

-- `TryRecvError` and `RegisterError`
pub data SignalError : Type 0 where
  signal_received : SignalError

pub data Result {ℓ} (A : Type ℓ) : Type ℓ where
  ok : A → Result A
  err : SignalError → Result A

-- `try_recv`
unfoldable pub try_recv : Watcher → Shared → Result Bool × Watcher × Shared
unfolding receive
try_recv w s =
    if w.signal_received
    then (err SignalError.signal_received, w, s)
    else if s.closed
    then (ok true, (receive w s).0, (receive w s).1)
    else (ok false, w, s)

-- `Drop for Watcher`
unfoldable pub drop : Watcher → Shared → Shared
unfolding decrease_peer_count
drop w s = (decrease_peer_count w s).1

-- `recv`, which takes the watcher and so drops it at its end; `none` while it blocks.
unfoldable pub recv : Watcher → Shared → Option Shared
unfolding receive drop
recv w s =
    if w.signal_received
    then some (drop w s)
    else if s.closed
    then some (drop (receive w s).0 (receive w s).1)
    else none

-- `register`; `fetch_add` wraps
unfoldable pub register : Watcher → Shared → Result (Watcher × Shared)
register w s =
    if w.signal_received
    then err SignalError.signal_received
    else ok (
      record {
        signal_received = w.signal_received;
        peer_count_decreased = false;
        registered = true;
      },
      record s { peers = (s.peers + 1) % 2 ^ 32 },
    )

-- `Clone for Watcher`
unfoldable pub clone : Watcher → Watcher
clone w = record {
  signal_received = w.signal_received;
  peer_count_decreased = false;
  registered = false;
}
