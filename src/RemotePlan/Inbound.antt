-- ===== src/RemotePlan/Inbound.antt =====
-- remote_plan.rs: which remote comments start work here, from line 222 of the file on.
use auwsx.Common.{
  List, Option, Text, [], codes, if◌then◌else◌, is_empty, lines, none, not, some, text_eq, trim,
  ◌++◌, ◌∷◌,
}
use auwsx.Common.Decimal.{strip_prefix}
use auwsx.RemotePlan.{ProjectRemoteConfig}

pub data InboundAuwsxRunIgnoreReason : Type 0 where
  config_missing disabled command_missing : InboundAuwsxRunIgnoreReason

pub data InboundAuwsxRunDecision : Type 0 where
  -- the title and the description of the backlog item
  accept : Text → Text → InboundAuwsxRunDecision
  ignore : InboundAuwsxRunIgnoreReason → InboundAuwsxRunDecision

abbrev pub first_some : Option Text → Option Text → Option Text
first_some (some x) rest = some x
first_some none rest = rest

abbrev pub run_word : Text
run_word = codes "/auwsx-run"

abbrev pub trimmed : Option Text → Option Text
unfolding trim
trimmed none = none
trimmed (some rest) = some (trim rest)

-- the command in a trimmed line
unfoldable pub line_command : Text → Option Text
unfolding strip_prefix trimmed text_eq
line_command line =
    if text_eq line run_word then some [] else trimmed (strip_prefix (codes "/auwsx-run ") line)

unfoldable pub find_command : List Text → Option Text
unfolding line_command trim
find_command [] = none
find_command (line ∷ rows) = first_some (line_command (trim line)) (find_command rows)

unfoldable pub extract_auwsx_run : Text → Option Text
unfolding find_command lines
extract_auwsx_run comment_body = find_command (lines comment_body)

unfoldable pub accept_command : Text → Text → Text → Text → InboundAuwsxRunDecision
unfolding trim
accept_command title url comment_body command =
    accept (if is_empty command then codes "Remote /auwsx-run: " ++ trim title else command) (
      codes "Remote issue: "
      ++ trim url
      ++ codes "\n\nCommand:\n"
      ++ (if is_empty command then run_word else command)
      ++ codes "\n\nComment:\n"
      ++ trim comment_body)

unfoldable pub decide_command : Text → Text → Text → Option Text → InboundAuwsxRunDecision
unfolding accept_command
decide_command title url comment_body none = ignore command_missing
decide_command title url comment_body (some command) = accept_command title url comment_body command

unfoldable pub plan_inbound_auwsx_run :
    Option ProjectRemoteConfig → Text → Text → Text → InboundAuwsxRunDecision
unfolding decide_command extract_auwsx_run
plan_inbound_auwsx_run none title url comment_body = ignore config_missing
plan_inbound_auwsx_run (some config) title url comment_body =
    if not config.inbound_auwsx_run_enabled
    then ignore disabled
    else decide_command title url comment_body (extract_auwsx_run comment_body)
