-- ===== src/Signal/Wakeup.antt =====
-- How `signal_and_wait` wakes up, and how it can miss its last notification.
use lading.Prelude.{
  ◌-◌, ◌+◌, ◌<◌, ◌≤◌, ◌^◌, ◌≡◌, ◌≢◌, refl, ◌⊎◌, inl, List, [], ◌∷◌, ◌++◌, length, arith, ℕ, Bool,
  some, Bool-cases, inr, ltb, ltb→lt, not-ltb→le,
}
use lading.Signal.{Shared, Watcher, Result, ok, drop, decrease_peer_count, try_recv, recv, register}
use lading.Signal.System.{
  checking, loaded, waiting, finished, World, start, Step, watcher_try_recv, watcher_recv,
  watcher_drop, watcher_register, watcher_clone, signal, close, load_zero, load_peers, wait, wake,
  wake_nobody, Reach, here, next,
}
use lading.Signal.Peers.{counted, counted-le-length, IsCounted, Reach-IsCounted}

-- The broadcaster waits or is about to, nobody is left to notify it, and no call is due.
abbrev pub Asleep : World → Type 0
Asleep s = ((s.phase ≡ loaded) ⊎ (s.phase ≡ waiting)) × (s.watchers ≡ []) × (s.shared.pending ≡ 0)

no_watcher : (ws pre post : List Watcher) (w : Watcher) → ws ≡ [] → ws ≡ pre ++ w ∷ post → ⊥
no_watcher ws [] post w e h = cc
no_watcher ws (v ∷ pre) post w e h = cc

Step-Asleep : (s t : World) → Step s t → Asleep s → Asleep t
Step-Asleep s t (watcher_try_recv pre post w w' r sh e q u) h =
    absurd (no_watcher s.watchers pre post w h.1 e)
Step-Asleep s t (watcher_recv pre post w sh e q u) h =
    absurd (no_watcher s.watchers pre post w h.1 e)
Step-Asleep s t (watcher_drop pre post w e u) h = absurd (no_watcher s.watchers pre post w h.1 e)
Step-Asleep s t (watcher_register pre post w w' sh e q u) h =
    absurd (no_watcher s.watchers pre post w h.1 e)
Step-Asleep s t (watcher_clone pre post w e u) h = absurd (no_watcher s.watchers pre post w h.1 e)
Step-Asleep s t (signal q u) h = ground (arith, u)
Step-Asleep s t (close q u) h = ground (arith, u)
Step-Asleep s t (load_zero q z u) h = ground (arith, u)
Step-Asleep s t (load_peers q z u) h = ground (arith, u)
Step-Asleep s t (wait q u) h = ground (arith, u)
Step-Asleep s t (wake q z u) h = ground (arith, u)
Step-Asleep s t (wake_nobody q z u) h = ground (arith, u)

Reach-Asleep : {s t : World} → Asleep s → Reach s t → Asleep t
Reach-Asleep h here = h
Reach-Asleep h (next {t = t} {u = u} r st l) = Step-Asleep t u st (Reach-Asleep h r)

-- Once the last watcher is gone and its call of `notify_waiters` has been made between the load of
-- the count and the wait, `signal_and_wait` never returns, whatever steps follow.
pub missed_notification :
    {s t : World}
    → s.phase ≡ loaded
    → s.watchers ≡ []
    → s.shared.pending ≡ 0
    → Reach s t
    → t.phase ≢ finished
missed_notification p w q r e = ground (arith, Reach-Asleep (inl p, w, q) r)

-- What comes of `s` by steps during which the broadcaster goes on waiting.
pub data Waits (s : World) : World → Type 0 where
  still : Waits s s
  more :
      {t u : World}
      → Waits s t
      → Step t u
      → u.phase ≡ waiting
      → length u.watchers < 2 ^ 32
      → Waits s u

Waits-Reach : {s t : World} → Reach start s → Waits s t → Reach start t
Waits-Reach r still = r
Waits-Reach r (more w st p l) = next (Waits-Reach r w) st l

Waits-waiting : {s t : World} → s.phase ≡ waiting → Waits s t → t.phase ≡ waiting
Waits-waiting p still = p
Waits-waiting p (more w st q l) = q

-- what may still wake the broadcaster: the watchers that are counted, and the calls that are due
abbrev due : Shared → ℕ
due s = s.peers + s.pending

decrease-due : (w : Watcher) (s : Shared) → due (decrease_peer_count w s).1 ≡ due s
unfolding decrease_peer_count
decrease-due w s = ground arith

try_recv-due :
    (w w' : Watcher) (s s' : Shared) (r : Result Bool) → try_recv w s ≡ (r, w', s') → due s' ≡ due s
unfolding try_recv
try_recv-due w w' s s' r e = ground arith

recv-due : (w : Watcher) (s s' : Shared) → recv w s ≡ some s' → due s' ≡ due s
unfolding recv
recv-due w s s' e = ground arith

drop-due : (w : Watcher) (s : Shared) → due (drop w s) ≡ due s
unfolding drop
drop-due w s = ground arith

register-due :
    (w w' : Watcher) (s s' : Shared)
    → register w s ≡ ok (w', s')
    → s.peers + 1 < 2 ^ 32
    → due s ≤ due s'
unfolding register
register-due w w' s s' e h = ground arith

Step-due :
    (s t : World)
    → Step s t
    → s.phase ≡ waiting
    → t.phase ≡ waiting
    → length t.watchers < 2 ^ 32
    → IsCounted s
    → due s.shared ≤ due t.shared
Step-due s t (watcher_try_recv pre post w w' r sh e q u) p k l h =
    ground (arith, u, try_recv-due w w' s.shared sh r q)
Step-due s t (watcher_recv pre post w sh e q u) p k l h =
    ground (arith, u, recv-due w s.shared sh q)
Step-due s t (watcher_drop pre post w e u) p k l h = ground (arith, u, drop-due w s.shared)
Step-due s t (watcher_register pre post w w' sh e q u) p k l h =
    ground (arith, u, counted-le-length s.watchers, register-due w w' s.shared sh q)
Step-due s t (watcher_clone pre post w e u) p k l h = ground (arith, u)
Step-due s t (signal q u) p k l h = ground (arith, u)
Step-due s t (close q u) p k l h = ground (arith, u)
Step-due s t (load_zero q z u) p k l h = ground (arith, u)
Step-due s t (load_peers q z u) p k l h = ground (arith, u)
Step-due s t (wait q u) p k l h = ground (arith, u)
Step-due s t (wake q z u) p k l h = ground (arith, u)
Step-due s t (wake_nobody q z u) p k l h = ground (arith, u)

Waits-due :
    {s t : World} → Reach start s → s.phase ≡ waiting → Waits s t → due s.shared ≤ due t.shared
Waits-due r p still = omega arith
Waits-due {s} r p (more {t = t} {u = u} w st q l) = omega (
  arith,
  Waits-due r p w,
  Step-due t u st (Waits-waiting p w) q l (Reach-IsCounted (Waits-Reach r w)),
)

-- The next two steps of the broadcaster: it wakes, and then returns.
abbrev pub Returns : World → Type 0
Returns t = (u : World) × (v : World) × Step t u × Step u v × (v.phase ≡ finished)

wake_and_load :
    (t : World) → t.phase ≡ waiting → t.shared.peers ≡ 0 → 0 < t.shared.pending → Returns t
wake_and_load t p z d =
    let woken : World = record t {
      phase = checking;
      shared = record (t.shared) { pending = t.shared.pending - 1 };
    } in
    (woken, record woken { phase = finished }, wake p d refl, load_zero refl z refl, refl)

-- Once `signal_and_wait` waits while some registered watcher has not logged off, whatever steps follow
-- during that wait: either such a watcher is still there, or a notification is due that wakes it, and
-- its next load then finds a count of zero and it returns.
pub waiting-Returns :
    {s t : World}
    → Reach start s
    → s.phase ≡ waiting
    → 0 < counted s.watchers
    → Waits s t
    → (0 < counted t.watchers) ⊎ Returns t
waiting-Returns {s} {t} r p h w = elim (Bool-cases (ltb 0 t.shared.peers)) [
  | inl e ↦ inl (omega (arith, ltb→lt 0 t.shared.peers e, Reach-IsCounted (Waits-Reach r w)))
  | inr e ↦
      let z = not-ltb→le 0 t.shared.peers e in
      inr (
        wake_and_load t (Waits-waiting p w) (omega (arith, z))
          (omega (arith, z, h, Reach-IsCounted r, Waits-due r p w)))
]
