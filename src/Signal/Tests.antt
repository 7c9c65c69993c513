-- ===== src/Signal/Tests.antt =====
-- Tests and witnesses of the signal.
use lading.Prelude.{ℕ, ◌<◌, ◌≡◌, ◌≢◌, refl, ◌⊎◌, List, [], ◌∷◌, true, false, arith}
use lading.Signal.{first_watcher, Shared, first_shared, drop}
use lading.Signal.Exchange.{Attempt, ended, exchange_loop, EndingIsTake, exchange_loop-take_peer}
use lading.Signal.System.{
  checking, loaded, waiting, finished, World, start, watcher_drop, close, load_zero, load_peers,
  wait, wake_nobody, Reach, here, next,
}
use lading.Signal.Peers.{counted, IsCounted, Reach-IsCounted, finished-counted}
use lading.Signal.Wakeup.{missed_notification, still, more, Returns, waiting-Returns}

-- One attempt fails since another thread has logged off, one for no reason, and one succeeds.
abbrev three_peers : Shared
three_peers = record first_shared { peers = 3 }

abbrev two_peers : Shared
two_peers = record first_shared { peers = 2; pending = 1 }

abbrev attempts : List Attempt
attempts =
    record { memory = two_peers; spurious = false }
    ∷ record { memory = two_peers; spurious = true }
    ∷ record { memory = two_peers; spurious = false }
    ∷ []

exchange_loop-attempts :
    exchange_loop three_peers attempts
    ≡ ended two_peers (record first_shared { peers = 1; pending = 2 })
unfolding exchange_loop
exchange_loop-attempts = refl

exchange_loop-take_peer_example :
    EndingIsTake three_peers attempts (exchange_loop three_peers attempts)
exchange_loop-take_peer_example = exchange_loop-take_peer three_peers attempts

abbrev closed_world : World
closed_world = record start { phase = checking; shared = record first_shared { closed = true } }

start-closed_world : Reach start closed_world
start-closed_world = next here (close refl refl) (omega arith)

-- The broadcaster has loaded a count of one.
abbrev loaded_world : World
loaded_world = record closed_world { phase = loaded }

one-ne-zero : closed_world.shared.peers ≢ 0
one-ne-zero = omega arith

start-loaded_world : Reach start loaded_world
start-loaded_world = next start-closed_world (load_peers refl one-ne-zero refl) (omega arith)

abbrev waiting_world : World
waiting_world = record loaded_world { phase = waiting }

start-waiting_world : Reach start waiting_world
start-waiting_world = next start-loaded_world (wait refl refl) (omega arith)

-- Then the watcher logs off, and its notification comes before the wait.
abbrev dropped_world : World
dropped_world = record loaded_world {
  shared = record { peers = 0; closed = true; pending = 1 };
  watchers = [];
}

abbrev missed_world : World
missed_world = record loaded_world {
  shared = record { peers = 0; closed = true; pending = 0 };
  watchers = [];
}

start-missed_world : Reach start missed_world
unfolding drop
start-missed_world =
    next
      (next {t = loaded_world} {u = dropped_world} start-loaded_world
        (watcher_drop [] [] first_watcher refl refl) (omega arith))
      (wake_nobody (cc) (omega arith) refl) (omega arith)

Reach-IsCounted_example : IsCounted missed_world
Reach-IsCounted_example = Reach-IsCounted start-missed_world

missed_notification_example : missed_world.phase ≢ finished
missed_notification_example = missed_notification {s = missed_world} refl refl refl here

-- The watcher is dropped during the wait.
abbrev ended_wait : World
ended_wait = record waiting_world {
  shared = drop first_watcher waiting_world.shared;
  watchers = [];
}

waiting-Returns_example : (0 < counted ended_wait.watchers) ⊎ Returns ended_wait
waiting-Returns_example =
    waiting-Returns start-waiting_world refl (omega arith) (
      more {t = waiting_world} still (watcher_drop [] [] first_watcher refl refl) refl
        (omega arith))

-- A watcher that is dropped before the signal leaves a count of zero to load.
abbrev left_world : World
left_world = record {
  phase = checking;
  shared = record { peers = 0; closed = true; pending = 1 };
  watchers = [];
}

start-left_world : Reach start left_world
unfolding drop
start-left_world =
    next {t = closed_world} start-closed_world (watcher_drop [] [] first_watcher refl refl)
      (omega arith)

finished-counted_example : ◌≡◌ {A = ℕ} (counted []) 0
finished-counted_example =
    finished-counted {t = record left_world { phase = finished }} start-left_world refl
      (load_zero refl refl refl) refl
