-- ===== src/Program/Configuration.antt =====
-- bin/lading.rs: `get_config`, from the deserialized configuration on. A path of the options always
-- parses, and a duration is its seconds.
use lading.Prelude.{
  ℕ, ◌^◌, List, [], Bool, Option, some, none, Outcome, done, panicked, ◌>>=◌, ltb, if◌then◌else◌,
  Text, u64_max, ◌≡◌, true, false,
}
use lading.Prelude.Names.{Names}
use lading.Program.KeyValues.{insert_all}

pub record BinaryConfig : Type 0 where
  pub command : Text
  pub arguments : List Text
  pub inherit_environment : Bool
  pub environment_variables : Names Text
  pub stderr : Text
  pub stdout : Text

-- `target::Config`
pub data Target : Type 0 where
  docker : Text → Target
  pid : ℕ → Target
  binary : BinaryConfig → Target

-- the options of the target and of the telemetry; labels and variables are the entries of their maps
pub record Opts : Type 0 where
  pub global_labels : Option (Names Text)
  pub target_pid : Option ℕ
  pub target_container : Option Text
  pub no_target : Bool
  pub target_path : Option Text
  pub target_inherit_environment : Bool
  pub target_environment_variables : Option (Names Text)
  pub target_arguments : List Text
  pub target_stdout_path : Text
  pub target_stderr_path : Text
  pub capture_path : Option Text
  pub capture_expiriation_seconds : Option ℕ
  pub prometheus_path : Option Text
  pub prometheus_addr : Option Text

-- what a command line gives of the group `target`, of which there is exactly one, since the group is
-- required and does not allow several
pub data TargetArg : Type 0 where
  given_path : Text → TargetArg
  given_pid : ℕ → TargetArg
  given_container : Text → TargetArg
  given_no_target : TargetArg

abbrev pub IsTargetGroup : Opts → TargetArg → Type 0
IsTargetGroup ops (given_path path) =
    (ops.target_path ≡ some path)
    × (ops.target_pid ≡ none)
    × (ops.target_container ≡ none)
    × (ops.no_target ≡ false)
IsTargetGroup ops (given_pid n) =
    (ops.target_path ≡ none)
    × (ops.target_pid ≡ some n)
    × (ops.target_container ≡ none)
    × (ops.no_target ≡ false)
IsTargetGroup ops (given_container name) =
    (ops.target_path ≡ none)
    × (ops.target_pid ≡ none)
    × (ops.target_container ≡ some name)
    × (ops.no_target ≡ false)
IsTargetGroup ops given_no_target =
    (ops.target_path ≡ none)
    × (ops.target_pid ≡ none)
    × (ops.target_container ≡ none)
    × (ops.no_target ≡ true)

-- the same of the group `telemetry`
pub data TelemetryArg : Type 0 where
  given_capture_path : Text → TelemetryArg
  given_prometheus_addr : Text → TelemetryArg
  given_prometheus_path : Text → TelemetryArg

abbrev pub IsTelemetryGroup : Opts → TelemetryArg → Type 0
IsTelemetryGroup ops (given_capture_path path) =
    (ops.capture_path ≡ some path) × (ops.prometheus_addr ≡ none) × (ops.prometheus_path ≡ none)
IsTelemetryGroup ops (given_prometheus_addr addr) =
    (ops.capture_path ≡ none) × (ops.prometheus_addr ≡ some addr) × (ops.prometheus_path ≡ none)
IsTelemetryGroup ops (given_prometheus_path path) =
    (ops.capture_path ≡ none) × (ops.prometheus_addr ≡ none) × (ops.prometheus_path ≡ some path)

pub data Telemetry (Addr : Type 0) : Type 0 where
  prometheus : (addr : Addr) (global_labels : Names Text) → Telemetry Addr
  prometheus_socket : (path : Text) (global_labels : Names Text) → Telemetry Addr
  log : (path : Text) (global_labels : Names Text) (expiration : ℕ) → Telemetry Addr

-- a configuration, with what the options do not change
pub record Config (Addr Rest : Type 0) : Type 0 where
  pub target : Option Target
  pub telemetry : Telemetry Addr
  pub rest : Rest

-- `unwrap_or_default` of labels, and `unwrap_or` of seconds
unfoldable pub labels_or_none : Option (Names Text) → Names Text
labels_or_none none = []
labels_or_none (some labels) = labels

unfoldable pub seconds_or_max : Option ℕ → ℕ
seconds_or_max none = u64_max
seconds_or_max (some seconds) = seconds

-- a process ID of the options as an `i32`
unfoldable pub pid_target : ℕ → Outcome (Option Target)
pid_target n = if ltb n (2 ^ 31) then done (some (pid n)) else panicked

unfoldable pub binary_target : Opts → Text → Target
unfolding labels_or_none
binary_target ops path = binary (record {
  command = path;
  arguments = ops.target_arguments;
  inherit_environment = ops.target_inherit_environment;
  environment_variables = labels_or_none ops.target_environment_variables;
  stderr = ops.target_stderr_path;
  stdout = ops.target_stdout_path;
})

-- the target by the options for a process ID, a container and a path
unfoldable pub target_by : Opts → Option ℕ → Option Text → Option Text → Outcome (Option Target)
unfolding pid_target binary_target
target_by ops (some n) container path = pid_target n
target_by ops none (some name) path = done (some (docker name))
target_by ops none none (some path) = done (some (binary_target ops path))
target_by ops none none none = panicked

unfoldable pub target_of : Opts → Outcome (Option Target)
unfolding target_by
target_of ops =
    if ops.no_target
    then done none
    else target_by ops ops.target_pid ops.target_container ops.target_path

module _ {Addr : Type 0} where
  -- the labels of the options in the telemetry of the configuration
  unfoldable pub with_labels : List (Text × Text) → Telemetry Addr → Telemetry Addr
  unfolding insert_all
  with_labels labels (prometheus addr global_labels) =
      prometheus addr (insert_all labels global_labels)
  with_labels labels (prometheus_socket path global_labels) =
      prometheus_socket path (insert_all labels global_labels)
  with_labels labels (log path global_labels expiration) =
      log path (insert_all labels global_labels) expiration

  unfoldable pub at_address : Names Text → Option Addr → Option (Telemetry Addr)
  at_address labels none = none
  at_address labels (some addr) = some (prometheus addr labels)

  -- the telemetry by the options for an address, a socket and a capture; none is an error
  unfoldable pub telemetry_by :
      (Text → Option Addr)
      → Opts
      → Telemetry Addr
      → Option Text
      → Option Text
      → Option Text
      → Option (Telemetry Addr)
  unfolding at_address with_labels labels_or_none seconds_or_max
  telemetry_by parse ops telemetry (some addr) socket capture =
      at_address (labels_or_none ops.global_labels) (parse addr)
  telemetry_by parse ops telemetry none (some path) capture =
      some (prometheus_socket path (labels_or_none ops.global_labels))
  telemetry_by parse ops telemetry none none (some path) =
      some (
        log path (labels_or_none ops.global_labels)
          (seconds_or_max ops.capture_expiriation_seconds))
  telemetry_by parse ops telemetry none none none =
      some (with_labels (labels_or_none ops.global_labels) telemetry)

  unfoldable pub with_telemetry :
      {Rest : Type 0}
      → Config Addr Rest
      → Option Target
      → Option (Telemetry Addr)
      → Option (Config Addr Rest)
  with_telemetry config target none = none
  with_telemetry config target (some telemetry) =
      some (record config { target = target; telemetry = telemetry })

  -- `get_config` after the configuration was deserialized
  unfoldable pub get_config :
      {Rest : Type 0}
      → (Text → Option Addr)
      → Opts
      → Config Addr Rest
      → Outcome (Option (Config Addr Rest))
  unfolding target_of telemetry_by with_telemetry
  get_config parse ops config = do
    target ← target_of ops
    done (
        with_telemetry config target (
          telemetry_by parse ops config.telemetry ops.prometheus_addr ops.prometheus_path
            ops.capture_path))
