-- ===== src/Signal/Peers.antt =====
-- The peer count is the number of registered watchers that have not logged off.
use lading.Prelude.{
  ℕ, ◌+◌, ◌<◌, ◌≤◌, ◌^◌, ◌≡◌, refl, ap, ◌∙◌, List, [], ◌∷◌, ◌++◌, Bool, true, some, length, arith,
  sum_by, sum_by-append, ◌&&◌, not, if◌then◌else◌,
}
use lading.Signal.{
  Shared, Watcher, Result, ok, try_recv, recv, drop, register, clone, decrease_peer_count,
}
use lading.Signal.System.{
  checking, finished, World, start, Step, watcher_try_recv, watcher_recv, watcher_drop,
  watcher_register, watcher_clone, signal, close, load_zero, load_peers, wait, wake, wake_nobody,
  Reach, here, next,
}

-- whether the broadcaster still counts the watcher
abbrev pub counts : Watcher → ℕ
counts w = if w.registered && not w.peer_count_decreased then 1 else 0

abbrev pub counted : List Watcher → ℕ
counted = sum_by counts

-- what is known of a watcher: one that has received the signal has logged off, if it is registered
abbrev Settled : Watcher → Type 0
Settled w = w.signal_received ≡ true → counts w ≡ 0

decrease-counts :
    (w : Watcher) (s : Shared)
    → counts w ≤ s.peers
    → ((decrease_peer_count w s).1.peers + counts w ≡ s.peers)
      × (counts (decrease_peer_count w s).0 ≡ 0)
unfolding decrease_peer_count
decrease-counts w s h = ground arith

try_recv-counts :
    (w w' : Watcher) (s s' : Shared) (r : Result Bool)
    → try_recv w s ≡ (r, w', s')
    → counts w ≤ s.peers
    → s'.peers + counts w ≡ s.peers + counts w'
unfolding try_recv
try_recv-counts w w' s s' r e h = ground arith

recv-counts :
    (w : Watcher) (s s' : Shared)
    → recv w s ≡ some s'
    → counts w ≤ s.peers
    → s'.peers + counts w ≡ s.peers
unfolding recv
recv-counts w s s' e h = ground arith

pub drop-counts :
    (w : Watcher) (s : Shared) → counts w ≤ s.peers → (drop w s).peers + counts w ≡ s.peers
unfolding drop
drop-counts w s h = ground arith

register-counts :
    (w w' : Watcher) (s s' : Shared)
    → register w s ≡ ok (w', s')
    → s.peers + 1 < 2 ^ 32
    → s'.peers ≡ s.peers + counts w'
unfolding register
register-counts w w' s s' e h = ground arith

clone-counts : (w : Watcher) → counts (clone w) ≡ 0
unfolding clone
clone-counts w = refl

counted-split :
    (ws pre post : List Watcher) (w : Watcher)
    → ws ≡ pre ++ w ∷ post
    → counted ws ≡ counted pre + (counts w + counted post)
counted-split ws pre post w e = ap counted e ∙ sum_by-append counts pre (w ∷ post)

counted-join : (pre post : List Watcher) → counted (pre ++ post) ≡ counted pre + counted post
counted-join pre post = sum_by-append counts pre post

pub counts-le-one : (w : Watcher) → counts w ≤ 1
counts-le-one w = ground arith

pub counted-le-length : (ws : List Watcher) → counted ws ≤ length ws
counted-le-length [] = omega arith
counted-le-length (w ∷ ws) = omega (arith, counts-le-one w, counted-le-length ws)

abbrev pub IsCounted : World → Type 0
IsCounted s = s.shared.peers ≡ counted s.watchers

abbrev peers_of : World → ℕ
peers_of s = s.shared.peers

Step-IsCounted : (s t : World) → Step s t → length t.watchers < 2 ^ 32 → IsCounted s → IsCounted t
Step-IsCounted s t (watcher_try_recv pre post w w' r sh e q u) l h =
    let split = counted-split s.watchers pre post w e in
    ground (
      arith,
      u,
      split,
      counted-split t.watchers pre post w' (ap (λ (x : World). x.watchers) u),
      try_recv-counts w w' s.shared sh r q,
    )
Step-IsCounted s t (watcher_recv pre post w sh e q u) l h = ground (
  arith,
  u,
  counted-split s.watchers pre post w e,
  counted-join pre post,
  recv-counts w s.shared sh q,
)
Step-IsCounted s t (watcher_drop pre post w e u) l h =
    ground (
      arith,
      u,
      counted-split s.watchers pre post w e,
      counted-join pre post,
      drop-counts w s.shared,
    )
Step-IsCounted s t (watcher_register pre post w w' sh e q u) l h =
    ground (arith, u, counted-le-length s.watchers, register-counts w w' s.shared sh q)
Step-IsCounted s t (watcher_clone pre post w e u) l h = ground (arith, u, clone-counts w)
Step-IsCounted s t (signal p u) l h = ground (arith, u)
Step-IsCounted s t (close p u) l h = ground (arith, u)
Step-IsCounted s t (load_zero p z u) l h = ground (arith, u)
Step-IsCounted s t (load_peers p z u) l h = ground (arith, u)
Step-IsCounted s t (wait p u) l h = ground (arith, u)
Step-IsCounted s t (wake p z u) l h = ground (arith, u)
Step-IsCounted s t (wake_nobody p z u) l h = ground (arith, u)

-- In every world that comes of the start, by whatever steps of its threads, while there are fewer
-- than 2 ^ 32 watchers, the peer count is the number of the registered watchers that have not
-- logged off.
pub Reach-IsCounted : {t : World} → Reach start t → IsCounted t
Reach-IsCounted here = refl
Reach-IsCounted (next {t = t} {u = u} r st l) = Step-IsCounted t u st l (Reach-IsCounted r)

load_zero-counted :
    (s t : World)
    → IsCounted s
    → s.phase ≡ checking
    → Step s t
    → t.phase ≡ finished
    → counted t.watchers ≡ 0
load_zero-counted s t h p (watcher_try_recv pre post w w' r sh e q u) f = ground (arith, u)
load_zero-counted s t h p (watcher_recv pre post w sh e q u) f = ground (arith, u)
load_zero-counted s t h p (watcher_drop pre post w e u) f = ground (arith, u)
load_zero-counted s t h p (watcher_register pre post w w' sh e q u) f = ground (arith, u)
load_zero-counted s t h p (watcher_clone pre post w e u) f = ground (arith, u)
load_zero-counted s t h p (signal q u) f = ground (arith, u)
load_zero-counted s t h p (close q u) f = ground (arith, u)
load_zero-counted s t h p (load_zero q z u) f = ground (arith, u)
load_zero-counted s t h p (load_peers q z u) f = ground (arith, u)
load_zero-counted s t h p (wait q u) f = ground (arith, u)
load_zero-counted s t h p (wake q z u) f = ground (arith, u)
load_zero-counted s t h p (wake_nobody q z u) f = ground (arith, u)

-- When a step makes `signal_and_wait` return, no registered watcher is left that has not logged off.
pub finished-counted :
    {s t : World}
    → Reach start s
    → s.phase ≡ checking
    → Step s t
    → t.phase ≡ finished
    → counted t.watchers ≡ 0
finished-counted {s} {t} r p st f = load_zero-counted s t (Reach-IsCounted r) p st f
