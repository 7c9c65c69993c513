-- ===== src/Ack/Channels.antt =====
-- acknowledgements.rs: `Channel` and `Channels`. A channel's id is the number that begins its text,
-- whose rest is the same for all channels.
use lading.Prelude.{
  ℕ, zero, suc, ◌+◌, ◌≡◌, refl, List, [], ◌∷◌, Outcome, done, panicked, ◌>>=◌, length, arith,
  if◌then◌else◌, Bool,
}

pub data Channel : Type 0 where
  ack no_ack : ℕ → Channel

-- `Channel::id`
unfoldable pub id : Channel → ℕ
id (ack i) = i
id (no_ack i) = i

-- what comes of a send: nothing is sent, or the message goes to the service, or its receiver is gone
pub data Sent : Type 0 where
  nothing : Sent
  sent : ℕ → Sent
  send_error : Sent

-- `Channel::send`, with whether the service still receives
unfoldable pub send : Channel → Bool → ℕ → Sent
send (ack i) receiving msg = if receiving then sent msg else send_error
send (no_ack i) receiving msg = nothing

-- `Channels::new`: the channels for `i` up to the number asked for
unfoldable pub channels_from : ℕ → ℕ → List Channel
channels_from zero i = []
channels_from (suc n) i = no_ack (10000000 + i) ∷ channels_from n (i + 1)

unfoldable pub new : ℕ → List Channel
unfolding channels_from
new num_channels = channels_from num_channels 0

-- `Channels::enable_acknowledgements`, which is not to be called twice
unfoldable pub enable_acknowledgements : List Channel → Outcome (List Channel)
enable_acknowledgements [] = done []
enable_acknowledgements (ack i ∷ channels) = panicked
enable_acknowledgements (no_ack i ∷ channels) = do
  rest ← enable_acknowledgements channels
  done (ack i ∷ rest)

-- The channels have the ids from `i` on, in order, and all send to a service.
abbrev pub Enabled : ℕ → List Channel → Type 0
Enabled i [] = Unit {0}
Enabled i (ack j ∷ channels) = (j ≡ 10000000 + i) × Enabled (i + 1) channels
Enabled i (no_ack j ∷ channels) = ⊥

channels_from-Enabled :
    (n i : ℕ)
    → (channels : List Channel) × (enable_acknowledgements (channels_from n i) ≡ done channels)
      × (length channels ≡ n)
      × Enabled i channels
unfolding channels_from enable_acknowledgements
channels_from-Enabled zero i = ([], refl, refl, tt)
channels_from-Enabled (suc n) i =
    let (channels, e, l, h) = channels_from-Enabled n (i + 1) in
    (ack (10000000 + i) ∷ channels, rw e, omega (arith, l), (refl, h))

-- Acknowledgements can be enabled on new channels, and then there are as many channels as were
-- asked for, with consecutive ids, and all of them send to a service.
pub enable_acknowledgements-new :
    (n : ℕ)
    → (channels : List Channel) × (enable_acknowledgements (new n) ≡ done channels)
      × (length channels ≡ n)
      × Enabled 0 channels
unfolding new
enable_acknowledgements-new n = channels_from-Enabled n 0
