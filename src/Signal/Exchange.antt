-- ===== src/Signal/Exchange.antt =====
-- The compare-and-exchange loop of `decrease_peer_count` in lading_signal/src/lib.rs, among other
-- threads that change what is shared.
use lading.Prelude.{
  ℕ, ◌+◌, ◌-◌, ◌<◌, ◌≡◌, ◌≢◌, refl, ◌⊎◌, inl, inr, List, [], ◌∷◌, Bool, true, ◌&&◌, not, arith, ltb,
  ltb→lt, false, ◌==◌, if◌then◌else◌, Bool-cases,
}
use lading.Signal.{Shared, take_peer}

-- What a call of `compare_exchange_weak` meets: what is in memory, and whether it fails without
-- reason, as the weak form may.
pub record Attempt : Type 0 where
  pub memory : Shared
  pub spurious : Bool

-- How the loop ends: the memory at the access that decides it, and after it; or (with the attempts
-- used up) it is still going.
pub data Ending : Type 0 where
  ended : Shared → Shared → Ending
  going : Ending

-- The loop, from the memory in which the count was loaded last. An exchange is followed by the call of
-- `notify_waiters`, which is then due.
unfoldable pub exchange_loop : Shared → List Attempt → Ending
exchange_loop old [] = if ltb 0 old.peers then going else ended old old
exchange_loop old (a ∷ attempts) =
    let rest = exchange_loop a.memory attempts in
    if ltb 0 old.peers
    then (if a.memory.peers == old.peers && not a.spurious
        then ended a.memory
            (record (a.memory) { peers = old.peers - 1; pending = a.memory.pending + 1 })
        else rest)
    else ended old old

-- The memory is one of those that the loop has met.
abbrev pub IsMet : Shared → Shared → List Attempt → Type 0
IsMet s old [] = s ≡ old
IsMet s old (a ∷ attempts) = (s ≡ old) ⊎ IsMet s a.memory attempts

-- No load has seen a count of zero, and every attempt has failed: without reason, or since the count
-- was another one than that seen before.
abbrev pub AllFail : Shared → List Attempt → Type 0
AllFail old [] = 0 < old.peers
AllFail old (a ∷ attempts) =
    (0 < old.peers)
    × ((a.spurious ≡ true) ⊎ (a.memory.peers ≢ old.peers))
    × AllFail a.memory attempts

-- the effect of `take_peer` on a memory that was met
abbrev pub EndingIsTake : Shared → List Attempt → Ending → Type 0
EndingIsTake old attempts (ended before after) =
    IsMet before old attempts × (after ≡ take_peer before)
EndingIsTake old attempts going = AllFail old attempts

failed :
    (a old : ℕ) (spurious : Bool)
    → (a == old && not spurious) ≡ false
    → (spurious ≡ true) ⊎ (a ≢ old)
failed a old spurious h = ground (arith, h)

took :
    (old s : Shared)
    → ltb 0 old.peers ≡ true
    → (s.peers == old.peers) ≡ true
    → record s { peers = old.peers - 1; pending = s.pending + 1 } ≡ take_peer s
unfolding take_peer
took old s h e = ground (arith, h, e)

kept : (s : Shared) → ltb 0 s.peers ≡ false → s ≡ take_peer s
unfolding take_peer
kept s h = rw h refl

-- Whatever the other threads do between the attempts, the loop does what `take_peer` does, in one step
-- on the memory that it meets at its last access; while it is going, all attempts have failed, each
-- without reason or since the count had changed.
pub exchange_loop-take_peer :
    (old : Shared) (attempts : List Attempt)
    → EndingIsTake old attempts (exchange_loop old attempts)
unfolding exchange_loop
exchange_loop-take_peer old [] = elim (Bool-cases (ltb 0 old.peers)) [
  | inl e ↦ rw e (ltb→lt 0 old.peers e)
  | inr e ↦ rw e (refl, kept old e)
]
exchange_loop-take_peer old (a ∷ attempts) = elim (Bool-cases (ltb 0 old.peers)) [
  | inr e ↦ rw e (inl refl, kept old e)
  | inl e ↦ elim (Bool-cases (a.memory.peers == old.peers && not a.spurious)) [
    | inl t ↦ rw (e, t) (inr (met a attempts), took old a.memory e (ground (arith, t)))
    | inr f ↦
        rw (e, f)
          (later old a attempts (exchange_loop a.memory attempts) (ltb→lt 0 old.peers e)
            (failed a.memory.peers old.peers a.spurious f)
            (exchange_loop-take_peer a.memory attempts))
  ]
]
  where
    met : (a : Attempt) (attempts : List Attempt) → IsMet a.memory a.memory attempts
    met a [] = refl
    met a (b ∷ attempts) = inl refl

    later :
        (old : Shared) (a : Attempt) (attempts : List Attempt) (r : Ending)
        → 0 < old.peers
        → (a.spurious ≡ true) ⊎ (a.memory.peers ≢ old.peers)
        → EndingIsTake a.memory attempts r
        → EndingIsTake old (a ∷ attempts) r
    later old a attempts (ended before after) p f h = (inr h.0, h.1)
    later old a attempts going p f h = (p, f, h)
