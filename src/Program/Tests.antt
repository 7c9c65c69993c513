-- ===== src/Program/Tests.antt =====
-- Tests and witnesses of labels on the command line.
use lading.Prelude.{
  ℕ, ◌^◌, ◌≡◌, refl, arith, [], ◌∷◌, true, false, some, none, done, panicked, Option, u64_max, Text,
  codes,
}
use lading.Prelude.Names.{lookup}
use lading.Prometheus.Strings.{trim_end_matches}
use lading.Program.KeyValues.{
  is_key, key_run, find_key, value_of, key_at, captures, insert_all, from_str, display,
}
use lading.Program.Configuration.{
  Opts, given_no_target, given_capture_path, prometheus, log, Config, target_of, get_config,
}
use lading.Program.Labels.{last_value}
use lading.Program.Parsed.{ConfigResult, get_config-ConfigResult}
use lading.Program.Displayed.{from_str-display}

-- A comma in a value is kept, and one before a key is not.
captures-commas :
    captures 9 (codes "a=1,b_=c,d,") ≡ (codes "a", codes "1") ∷ (codes "b_", codes "c,d") ∷ []
unfolding captures key_at find_key is_key key_run value_of trim_end_matches
captures-commas = refl

from_str-display_example :
    (from_str (codes "a=1,b=c,d,")
      ≡ insert_all ((codes "a", codes "1") ∷ (codes "b", codes "c,d") ∷ []) [])
    × ((key : Text)
        → lookup (from_str (codes "a=1,b=c,d,")) key
          ≡ last_value ((codes "a", codes "1") ∷ (codes "b", codes "c,d") ∷ []) key none)
unfolding display is_key trim_end_matches
from_str-display_example =
    from_str-display ((codes "a", codes "1") ∷ (codes "b", codes "c,d") ∷ []) (
      (tt, (refl, tt), (omega arith, tt), refl),
      ((tt, (refl, tt), (omega arith, (omega arith, (omega arith, tt))), refl), tt),
    )

-- no target, one label and a capture
abbrev ops : Opts
ops = record {
  global_labels = some ((codes "a", codes "1") ∷ []);
  target_pid = none;
  target_container = none;
  no_target = true;
  target_path = none;
  target_inherit_environment = false;
  target_environment_variables = none;
  target_arguments = [];
  target_stdout_path = [];
  target_stderr_path = [];
  capture_path = some (codes "c");
  capture_expiriation_seconds = none;
  prometheus_path = none;
  prometheus_addr = none;
}

abbrev config : Config ℕ ℕ
config = record {
  target = none;
  telemetry = prometheus 9000 ((codes "a", codes "0") ∷ (codes "b", codes "2") ∷ []);
  rest = 7;
}

-- no address parses
abbrev parse_none : Text → Option ℕ
parse_none addr = none

-- A process ID that is no `i32` panics.
target_of-large :
    target_of (record ops { no_target = false; target_pid = some (2 ^ 31) }) ≡ panicked
unfolding target_of
target_of-large = refl

get_config-ConfigResult_example :
    ConfigResult parse_none ops config given_no_target
      (given_capture_path (codes "c"))
      (get_config parse_none ops config)
get_config-ConfigResult_example =
    get_config-ConfigResult parse_none ops config given_no_target (given_capture_path (codes "c"))
      (refl, refl, refl, refl) (refl, refl, refl)

-- The label `b` of the configuration is dropped.
get_config-capture :
    get_config parse_none ops config
    ≡ done
        (some (record config { telemetry = log (codes "c") ((codes "a", codes "1") ∷ []) u64_max }))
unfolding get_config
get_config-capture = refl
