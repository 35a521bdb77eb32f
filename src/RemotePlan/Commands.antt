-- ===== src/RemotePlan/Commands.antt =====
-- Which comments at the remote repository are accepted, and why the others are not.
use auwsx.Common.{
  All, Bool-cases, List, Option, Text, [], ap, arith, false, inl, inr, is_empty, lines, none, refl,
  some, trim, true, ◌++◌, ◌∷◌, ◌≡◌,
}
use auwsx.RemotePlan.{ProjectRemoteConfig}
use auwsx.RemotePlan.Inbound.{
  InboundAuwsxRunDecision, accept, accept_command, command_missing, config_missing, decide_command,
  disabled, extract_auwsx_run, find_command, first_some, ignore, line_command,
  plan_inbound_auwsx_run,
}

-- the first line of a comment that has a command has this one
abbrev pub FirstCommand : Text → List Text → Type 0
FirstCommand command rows =
    (before : List Text) × (line : Text) × (after : List Text) × (rows ≡ before ++ line ∷ after)
    × All (λ row. line_command (trim row) ≡ none) before
    × (line_command (trim line) ≡ some command)

abbrev pub Explained : Option ProjectRemoteConfig → Text → InboundAuwsxRunDecision → Type 0
Explained config comment_body (accept title description) =
    (is_empty title ≡ false)
    × ((c : ProjectRemoteConfig) × (config ≡ some c) × (c.inbound_auwsx_run_enabled ≡ true))
    × ((command : Text) × FirstCommand command (lines comment_body)
        × ((is_empty command ≡ false) → title ≡ command))
Explained config comment_body (ignore config_missing) = config ≡ none
Explained config comment_body (ignore disabled) =
    (c : ProjectRemoteConfig) × (config ≡ some c) × (c.inbound_auwsx_run_enabled ≡ false)
Explained config comment_body (ignore command_missing) =
    All (λ row. line_command (trim row) ≡ none) (lines comment_body)

abbrev Found : Option Text → List Text → Type 0
Found (some command) rows = FirstCommand command rows
Found none rows = All (λ row. line_command (trim row) ≡ none) rows

cons-Found :
    (line : Text) (rows : List Text) (here later : Option Text)
    → line_command (trim line) ≡ here
    → Found later rows
    → Found (first_some here later) (line ∷ rows)
cons-Found line rows (some command) later e h = ([], line, rows, refl, tt, e)
cons-Found line rows none none e h = (e, h)
cons-Found line rows none (some command) e (before, at, after, cut, others, found) =
    (line ∷ before, at, after, ap (λ t. line ∷ t) cut, (e, others), found)

find_command-Found : (rows : List Text) → Found (find_command rows) rows
unfolding find_command
find_command-Found [] = tt
find_command-Found (line ∷ rows) =
    cons-Found line rows (line_command (trim line)) (find_command rows) refl
      (find_command-Found rows)

accept_command-Explained :
    (config : ProjectRemoteConfig) (title url comment_body command : Text)
    → config.inbound_auwsx_run_enabled ≡ true
    → FirstCommand command (lines comment_body)
    → Explained (some config) comment_body (accept_command title url comment_body command)
unfolding accept_command
accept_command-Explained config title url comment_body [] on first =
    (refl, (config, refl, on), ([], first, λ absurd. ground arith))
accept_command-Explained config title url comment_body (c ∷ command) on first =
    (refl, (config, refl, on), (c ∷ command, first, λ h. refl))

decide_command-Explained :
    (config : ProjectRemoteConfig) (title url comment_body : Text) (found : Option Text)
    → config.inbound_auwsx_run_enabled ≡ true
    → Found found (lines comment_body)
    → Explained (some config) comment_body (decide_command title url comment_body found)
unfolding decide_command
decide_command-Explained config title url comment_body none on h = h
decide_command-Explained config title url comment_body (some command) on h =
    accept_command-Explained config title url comment_body command on h

-- A comment is accepted only under a configuration that enables it, for the command of the first line
-- that has one, and the title is then not empty and is the command unless that is empty. It is ignored
-- for the reason that holds: no configuration, one that disables it, or no line with a command.
pub plan_inbound-Explained :
    (config : Option ProjectRemoteConfig) (title url comment_body : Text)
    → Explained config comment_body (plan_inbound_auwsx_run config title url comment_body)
unfolding plan_inbound_auwsx_run extract_auwsx_run decide_command
plan_inbound-Explained none title url comment_body = refl
plan_inbound-Explained (some config) title url comment_body =
    elim (Bool-cases config.inbound_auwsx_run_enabled) [
      | inl on ↦ simp on (
          decide_command-Explained config title url comment_body (find_command (lines comment_body))
            on (find_command-Found (lines comment_body)))
      | inr off ↦ simp off (config, refl, off)
    ]
