-- ===== src/Signal/System.antt =====
-- The broadcaster of lading_signal/src/lib.rs and its watchers as a system of threads: any of them
-- may take the next step.
use lading.Prelude.{◌-◌, ◌<◌, ◌^◌, ◌≡◌, ◌≢◌, List, [], ◌∷◌, ◌++◌, Bool, true, some, length}
use lading.Signal.{
  Shared, Watcher, Result, ok, first_watcher, first_shared, try_recv, recv, drop, register, clone,
}

-- Where the broadcaster is: it has not signalled; it is about to load the count in
-- `signal_and_wait`; it has loaded a count other than zero and has not yet called `notified`; it
-- waits for a notification; it is done.
pub data Phase : Type 0 where
  before checking loaded waiting finished : Phase

pub record World : Type 0 where
  pub shared : Shared
  pub phase : Phase
  pub watchers : List Watcher

abbrev pub start : World
start = record { shared = first_shared; phase = before; watchers = first_watcher ∷ [] }

-- One step. The watcher that acts stands anywhere in the list, and the equations of a step say what
-- its operation returned. `notify_waiters` wakes the broadcaster only if it waits already.
pub data Step (s t : World) : Type 0 where
  watcher_try_recv :
      (pre post : List Watcher) (w w' : Watcher) (r : Result Bool) (shared : Shared)
      → s.watchers ≡ pre ++ w ∷ post
      → try_recv w s.shared ≡ (r, w', shared)
      → t ≡ record s { shared = shared; watchers = pre ++ w' ∷ post }
      → Step s t
  watcher_recv :
      (pre post : List Watcher) (w : Watcher) (shared : Shared)
      → s.watchers ≡ pre ++ w ∷ post
      → recv w s.shared ≡ some shared
      → t ≡ record s { shared = shared; watchers = pre ++ post }
      → Step s t
  watcher_drop :
      (pre post : List Watcher) (w : Watcher)
      → s.watchers ≡ pre ++ w ∷ post
      → t ≡ record s { shared = drop w s.shared; watchers = pre ++ post }
      → Step s t
  watcher_register :
      (pre post : List Watcher) (w w' : Watcher) (shared : Shared)
      → s.watchers ≡ pre ++ w ∷ post
      → register w s.shared ≡ ok (w', shared)
      → t ≡ record s { shared = shared; watchers = w' ∷ s.watchers }
      → Step s t
  watcher_clone :
      (pre post : List Watcher) (w : Watcher)
      → s.watchers ≡ pre ++ w ∷ post
      → t ≡ record s { watchers = clone w ∷ s.watchers }
      → Step s t
  -- `Broadcaster::signal`
  signal :
      s.phase ≡ before
      → t ≡ record s { phase = finished; shared = record (s.shared) { closed = true } }
      → Step s t
  -- `Broadcaster::signal_and_wait`: the drop of the sender
  close :
      s.phase ≡ before
      → t ≡ record s { phase = checking; shared = record (s.shared) { closed = true } }
      → Step s t
  -- the load, and the test that ends the loop
  load_zero : s.phase ≡ checking → s.shared.peers ≡ 0 → t ≡ record s { phase = finished } → Step s t
  load_peers : s.phase ≡ checking → s.shared.peers ≢ 0 → t ≡ record s { phase = loaded } → Step s t
  -- `notified().await` begins to wait
  wait : s.phase ≡ loaded → t ≡ record s { phase = waiting } → Step s t
  -- a call of `notify_waiters` that is due
  wake :
      s.phase ≡ waiting
      → 0 < s.shared.pending
      → t ≡ record s {
        phase = checking;
        shared = record (s.shared) { pending = s.shared.pending - 1 };
      }
      → Step s t
  wake_nobody :
      s.phase ≢ waiting
      → 0 < s.shared.pending
      → t ≡ record s { shared = record (s.shared) { pending = s.shared.pending - 1 } }
      → Step s t

-- What comes of `s` while there are fewer watchers than a `u32` counts.
pub data Reach (s : World) : World → Type 0 where
  here : Reach s s
  next : {t u : World} → Reach s t → Step t u → length u.watchers < 2 ^ 32 → Reach s u
