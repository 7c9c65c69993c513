-- ===== src/Ack/Tests.antt =====
-- Tests and witnesses of the Splunk HEC acknowledgements.
use lading.Prelude.{ℕ, ◌≡◌, refl, List, [], ◌∷◌, Bool, true, false, done, panicked}
use lading.Prelude.Map.{Map, get, insert, remove, map_values}
use lading.Ack.Channels.{ack, enable_acknowledgements}
use lading.Ack.Service.{receive, tick, acks, failed, spin, spin_loop, ack_request}
use lading.Ack.Retries.{retries_after, ticks, get-spin_loop}

-- Enabling acknowledgements a second time is a panic.
enable_acknowledgements-twice : enable_acknowledgements (ack 10000000 ∷ []) ≡ panicked
unfolding enable_acknowledgements
enable_acknowledgements-twice = refl

abbrev outstanding : Map ℕ
outstanding = (7, 2) ∷ (8, 0) ∷ (9, 1) ∷ []

-- The id 7 is acknowledged, 8 has no retries left, and 9 has one.
abbrev answer : List (ℕ × Bool)
answer = (7, true) ∷ (8, false) ∷ (9, false) ∷ []

ack_request-outstanding : ack_request outstanding (acks answer) ≡ (9, 0) ∷ []
unfolding ack_request remove map_values
ack_request-outstanding = refl

-- With a timeout of four seconds and an interval of two, an id is dropped at the third answer; a
-- failed request does not count.
spin-drops : spin 4 2 (receive 5 ∷ tick failed ∷ ticks ([] ∷ [] ∷ [] ∷ [])) ≡ done []
unfolding spin insert map_values remove
spin-drops = refl

spin-no_interval : spin 4 0 [] ≡ panicked
unfolding spin
spin-no_interval = refl

get-spin_loop_example :
    get (spin_loop 2 outstanding (ticks ([] ∷ [] ∷ []))) 7 ≡ retries_after 2 (get outstanding 7)
unfolding get
get-spin_loop_example =
    get-spin_loop 2 outstanding ([] ∷ [] ∷ []) 7 (refl, (refl, (refl, tt))) (refl, (refl, tt))
