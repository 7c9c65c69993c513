-- ===== src/Program/Parsed.antt =====
-- What `get_config` makes of a command line that was parsed.
use lading.Prelude.{
  ℕ, ◌^◌, ◌≤◌, ◌≡◌, refl, ◌⊎◌, inl, inr, Option, some, none, [], Outcome, done, panicked, ap, ltb,
  not-ltb→le, Bool-cases, Text, u64_max,
}
use lading.Prelude.Names.{Names}
use lading.Program.Configuration.{
  Target, docker, pid, binary, Opts, TargetArg, given_path, given_pid, given_container,
  given_no_target, IsTargetGroup, TelemetryArg, given_capture_path, given_prometheus_addr,
  given_prometheus_path, IsTelemetryGroup, Telemetry, prometheus, prometheus_socket, log, Config,
  labels_or_none, seconds_or_max, pid_target, binary_target, target_by, target_of, at_address,
  telemetry_by, with_telemetry, get_config,
}

-- the entries that an option gives
abbrev pub given : Option (Names Text) → Names Text
given none = []
given (some entries) = entries

-- the target of an argument
abbrev pub target_for : Opts → TargetArg → Option Target
target_for ops (given_path path) = some (
    binary (record {
      command = path;
      arguments = ops.target_arguments;
      inherit_environment = ops.target_inherit_environment;
      environment_variables = given ops.target_environment_variables;
      stderr = ops.target_stderr_path;
      stdout = ops.target_stdout_path;
    }))
target_for ops (given_pid n) = some (pid n)
target_for ops (given_container name) = some (docker name)
target_for ops given_no_target = none

-- It is a process ID that no `i32` holds.
abbrev pub IsLargePid : TargetArg → Type 0
IsLargePid (given_pid n) = 2 ^ 31 ≤ n
IsLargePid (given_path path) = ⊥
IsLargePid (given_container name) = ⊥
IsLargePid given_no_target = ⊥

module _ {Addr : Type 0} (parse : Text → Option Addr) where
  -- The telemetry is that of an argument: with the labels of the options and no others.
  abbrev pub IsTelemetryFor : Opts → TelemetryArg → Telemetry Addr → Type 0
  IsTelemetryFor ops (given_capture_path path) telemetry =
      (seconds : ℕ) × (telemetry ≡ log path (given ops.global_labels) seconds)
      × ((ops.capture_expiriation_seconds ≡ some seconds)
          ⊎ ((ops.capture_expiriation_seconds ≡ none) × (seconds ≡ u64_max)))
  IsTelemetryFor ops (given_prometheus_addr text) telemetry =
      (addr : Addr) × (telemetry ≡ prometheus addr (given ops.global_labels))
      × (parse text ≡ some addr)
  IsTelemetryFor ops (given_prometheus_path path) telemetry =
      telemetry ≡ prometheus_socket path (given ops.global_labels)

  -- It is an address that does not parse.
  abbrev pub IsNoAddress : TelemetryArg → Type 0
  IsNoAddress (given_prometheus_addr text) = parse text ≡ none
  IsNoAddress (given_capture_path path) = ⊥
  IsNoAddress (given_prometheus_path path) = ⊥

  -- what `get_config` comes to: a panic on a process ID that is too large, an error on an address that
  -- does not parse, or the configuration with the target and the telemetry of the arguments
  abbrev pub ConfigResult :
      {Rest : Type 0}
      → Opts
      → Config Addr Rest
      → TargetArg
      → TelemetryArg
      → Outcome (Option (Config Addr Rest))
      → Type 0
  ConfigResult ops config t l panicked = IsLargePid t
  ConfigResult ops config t l (done none) = IsNoAddress l
  ConfigResult ops config t l (done (some config')) =
      (config'.target ≡ target_for ops t)
      × IsTelemetryFor ops l config'.telemetry
      × (config'.rest ≡ config.rest)

  labels_or_none-given : (o : Option (Names Text)) → labels_or_none o ≡ given o
  unfolding labels_or_none
  labels_or_none-given none = refl
  labels_or_none-given (some labels) = refl

  binary_target-target_for :
      (ops : Opts) (path : Text) → some (binary_target ops path) ≡ target_for ops (given_path path)
  unfolding binary_target
  binary_target-target_for ops path =
      rw (labels_or_none-given ops.target_environment_variables) refl

  target_of-target_for :
      (ops : Opts) (t : TargetArg)
      → IsTargetGroup ops t
      → ((target_of ops ≡ panicked) × IsLargePid t) ⊎ (target_of ops ≡ done (target_for ops t))
  unfolding target_of target_by
  target_of-target_for ops (given_path path) (a, b, c, d) =
      inr (rw (d, b, c, a) (ap done (binary_target-target_for ops path)))
  target_of-target_for ops (given_container name) (a, b, c, d) = inr (rw (d, b, c) refl)
  target_of-target_for ops given_no_target (a, b, c, d) = inr (rw d refl)
  target_of-target_for ops (given_pid n) (a, b, c, d) = elim (Bool-cases (ltb n (2 ^ 31))) [
    | inl e ↦ inr (rw (d, b, pid_target, e) refl)
    | inr e ↦ inl (rw (d, b, pid_target, e) refl, not-ltb→le n (2 ^ 31) e)
  ]

  seconds_or_max-cases :
      (o : Option ℕ) → (o ≡ some (seconds_or_max o)) ⊎ ((o ≡ none) × (seconds_or_max o ≡ u64_max))
  unfolding seconds_or_max
  seconds_or_max-cases none = inr (refl, refl)
  seconds_or_max-cases (some n) = inl refl

  at_address-cases :
      (labels : Names Text) (o : Option Addr)
      → ((at_address labels o ≡ none) × (o ≡ none))
        ⊎ ((addr : Addr) × (at_address labels o ≡ some (prometheus addr labels)) × (o ≡ some addr))
  unfolding at_address
  at_address-cases labels none = inl (refl, refl)
  at_address-cases labels (some addr) = inr (addr, refl, refl)

  -- what the options make of the telemetry
  abbrev chosen : Opts → Telemetry Addr → Option (Telemetry Addr)
  chosen ops telemetry =
      telemetry_by parse ops telemetry ops.prometheus_addr ops.prometheus_path ops.capture_path

  chosen-IsTelemetryFor :
      (ops : Opts) (telemetry : Telemetry Addr) (l : TelemetryArg)
      → IsTelemetryGroup ops l
      → ((chosen ops telemetry ≡ none) × IsNoAddress l)
        ⊎ ((telemetry' : Telemetry Addr) × (chosen ops telemetry ≡ some telemetry')
            × IsTelemetryFor ops l telemetry')
  unfolding telemetry_by
  chosen-IsTelemetryFor ops telemetry (given_capture_path path) (a, b, c) = inr (
    log path (given ops.global_labels) (seconds_or_max ops.capture_expiriation_seconds),
    rw (b, c, a, labels_or_none-given ops.global_labels) refl,
    (
      seconds_or_max ops.capture_expiriation_seconds,
      refl,
      seconds_or_max-cases ops.capture_expiriation_seconds,
    ),
  )
  chosen-IsTelemetryFor ops telemetry (given_prometheus_path path) (a, b, c) = inr (
    prometheus_socket path (given ops.global_labels),
    rw (b, c, labels_or_none-given ops.global_labels) refl,
    refl,
  )
  chosen-IsTelemetryFor ops telemetry (given_prometheus_addr text) (a, b, c) =
      elim (at_address-cases (given ops.global_labels) (parse text)) [
        | inl (e, f) ↦ inl (rw (b, labels_or_none-given ops.global_labels) e, f)
        | inr (addr, e, f) ↦ inr (
          prometheus addr (given ops.global_labels),
          rw (b, labels_or_none-given ops.global_labels) e,
          (addr, refl, f),
        )
      ]

  -- On every command line that clap accepts, which gives exactly one target and one telemetry, and
  -- whatever the configuration has for both: `get_config` panics only on a process ID that no `i32`
  -- holds, fails only on an address that does not parse, and otherwise has the target and the telemetry
  -- of the command line, with its labels and none of those of the configuration, and leaves the rest of
  -- the configuration as it is.
  pub get_config-ConfigResult :
      {Rest : Type 0} (ops : Opts) (config : Config Addr Rest) (t : TargetArg) (l : TelemetryArg)
      → IsTargetGroup ops t
      → IsTelemetryGroup ops l
      → ConfigResult ops config t l (get_config parse ops config)
  unfolding get_config with_telemetry
  get_config-ConfigResult ops config t l h k = elim (target_of-target_for ops t h) [
    | inl (e, large) ↦ rw e large
    | inr e ↦ elim (chosen-IsTelemetryFor ops config.telemetry l k) [
      | inl (f, bad) ↦ rw (e, f) bad
      | inr (telemetry, f, is) ↦ rw (e, f) (refl, is, refl)
    ]
  ]
