-- ===== src/Config/Runs.antt =====
-- Runs of the loader, and its theorem at a concrete environment.
use mgba_server.Common.{◌≡◌, refl, Option, none, some, ok, err, if◌then◌else◌}
use mgba_server.Common.Text.{Text, codes, text_beq, to_digit, parse_uint}
use mgba_server.Config.{
  range_error, defaults, load_from_env, read_string, read_string_allow_empty, read_bool, read_u64,
  read_u32, read_u16, read_usize, parse_u64, range,
}
use mgba_server.Config.Loaded.{IsInRange, load_from_env-IsInRange}

abbrev unset : Text → Option Text
unset name = none

abbrev twenty_one : Text → Option Text
twenty_one name = if text_beq name (codes "MAX_INSTANCES") then some (codes "21") else none

loads_defaults : load_from_env unset ≡ ok defaults
unfolding load_from_env read_string read_string_allow_empty read_bool read_u64 read_u32 read_u16
    read_usize
loads_defaults = refl

rejects_more_than_twenty :
    load_from_env twenty_one ≡ err (range_error (codes "MAX_INSTANCES") 1 20 21)
unfolding load_from_env read_string read_u16 read_u64 text_beq parse_u64 parse_uint to_digit range
rejects_more_than_twenty = refl

load_from_env-IsInRange_example : IsInRange unset defaults
load_from_env-IsInRange_example = load_from_env-IsInRange unset defaults loads_defaults
