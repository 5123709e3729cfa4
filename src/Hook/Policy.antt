-- ===== src/Hook/Policy.antt =====
-- `_valid_target_exec`, `evaluate_hook` and `main` of
-- agent-project-trusted/bin/trusted_tool_hook.py. A text is the list of its code points where it
-- is scanned; `shlex.split` is a parameter, `none` where it raises ValueError.
pub mod Allowed
use aiops_runner.Prelude.{
  ℕ, String, Bool, true, false, not, ◌&&◌, ◌||◌, Option, none, some, List, [], ◌∷◌, str_eq,
  if◌then◌else◌, leb, ltb, length, all, one_of, is_some, Result, ok, err, codes, ◌==◌,
}
use aiops_runner.Hook.Scan.{has_local_shell_control, is_fully_quoted_argument}
use aiops_runner.Hook.Words.{is_empty, strip, split_once}

-- A JSON value of the tool's input: what the hook tells apart.
pub data InputValue : Type 0 where
  text : String → InputValue
  flag : Bool → InputValue
  scalar structure : InputValue

abbrev pub ToolInput : Type 0
ToolInput = List (String × InputValue)

-- A member that is no text, and a tool input that is no mapping, are `none`.
pub record HookPayload : Type 0 where
  pub hook_event_name : Option String
  pub tool_name : Option String
  pub tool_input : Option ToolInput

pub data DenyReason : Type 0 where
  not_pre_tool_use malformed_tool_input untrusted_skill tool_not_permitted : DenyReason
  unsupported_bash_input background_bash sandbox_bypass not_target_exec : DenyReason
  malformed_hook_input failed_closed : DenyReason

pub data Decision : Type 0 where
  allow : Decision
  deny : DenyReason → Decision

abbrev pub max_local_command_length : ℕ
max_local_command_length = 65536

abbrev pub target_exec : List ℕ
target_exec = codes "./bin/target-exec"

unfoldable pub same_codes : List ℕ → List ℕ → Bool
same_codes [] [] = true
same_codes [] (b ∷ bs) = false
same_codes (a ∷ as') [] = false
same_codes (a ∷ as') (b ∷ bs) = a == b && same_codes as' bs

-- `len(words) == 2 and words[0] == … and bool(words[1].strip())`
unfoldable pub are_target_words : Option (List (List ℕ)) → Bool
unfolding same_codes
are_target_words (some (name ∷ argument ∷ [])) =
    same_codes name target_exec && not (is_empty (strip argument))
are_target_words _ = false

-- The first word and the quoted argument of the command.
unfoldable pub is_wrapped : Option (List ℕ × List ℕ) → Bool
is_wrapped none = false
is_wrapped (some (name, argument)) =
    same_codes name target_exec && is_fully_quoted_argument (strip argument)

unfoldable pub valid_target_exec : (List ℕ → Option (List (List ℕ))) → Option InputValue → Bool
unfolding is_wrapped are_target_words
valid_target_exec shlex_split (some (text t)) =
    let command = codes t in
    not (is_empty (strip command))
    && (leb (length command) max_local_command_length
        && (not (has_local_shell_control command)
            && (is_wrapped (split_once (strip command)) && are_target_words (shlex_split command))))
valid_target_exec shlex_split _ = false

unfoldable pub get : String → ToolInput → Option InputValue
get k [] = none
get k ((j, v) ∷ vs) = if str_eq j k then some v else get k vs

abbrev pub allowed_bash_input_keys : List String
allowed_bash_input_keys =
    "command" ∷ "description" ∷ "timeout" ∷ "run_in_background" ∷ "dangerouslyDisableSandbox" ∷ []

abbrev pub trusted_skills : List String
trusted_skills =
    "trusted-repair-session" ∷ "trusted-inspection-session" ∷ "host-context-initialization" ∷ []

-- `key in tool_input and tool_input[key] is not False`
unfoldable pub is_raised : Option InputValue → Bool
is_raised none = false
is_raised (some (flag b)) = b
is_raised (some _) = true

-- `tool_input.get("skill") in {…}`: a value that cannot be hashed raises TypeError.
unfoldable pub evaluate_skill : Option InputValue → Result (Unit {0}) Decision
evaluate_skill (some (text t)) =
    ok (if one_of t trusted_skills then allow else deny untrusted_skill)
evaluate_skill (some structure) = err tt
evaluate_skill _ = ok (deny untrusted_skill)

unfoldable pub evaluate_bash : (List ℕ → Option (List (List ℕ))) → ToolInput → Decision
unfolding get is_raised
evaluate_bash shlex_split input =
    if not (all (λ v. one_of v.0 allowed_bash_input_keys) input)
    then deny unsupported_bash_input
    else if is_raised (get "run_in_background" input)
    then deny background_bash
    else if is_raised (get "dangerouslyDisableSandbox" input)
    then deny sandbox_bypass
    else if not (valid_target_exec shlex_split (get "command" input))
    then deny not_target_exec
    else allow

-- The tool's name, once the event and the input's shape are checked.
unfoldable pub evaluate_tool :
    (List ℕ → Option (List (List ℕ))) → String → ToolInput → Result (Unit {0}) Decision
unfolding evaluate_skill evaluate_bash
evaluate_tool shlex_split tool_name input =
    if str_eq tool_name "StructuredOutput"
    then ok allow
    else if str_eq tool_name "Skill"
    then evaluate_skill (get "skill" input)
    else if not (str_eq tool_name "Bash")
    then ok (deny tool_not_permitted)
    else ok (evaluate_bash shlex_split input)

abbrev pub or_empty : Option String → String
or_empty none = ""
or_empty (some t) = t

abbrev is_pre_tool_use : Option String → Bool
is_pre_tool_use none = false
is_pre_tool_use (some name) = str_eq name "PreToolUse"

unfoldable pub evaluate_hook :
    (List ℕ → Option (List (List ℕ))) → HookPayload → Result (Unit {0}) Decision
unfolding evaluate_tool
evaluate_hook shlex_split payload =
    if not (is_pre_tool_use payload.hook_event_name)
    then ok (deny not_pre_tool_use)
    else elim payload.tool_input [
      | none ↦ ok (deny malformed_tool_input)
      | some input ↦ evaluate_tool shlex_split (or_empty payload.tool_name) input
    ]

-- What stands on the hook's standard input.
pub data HookInput : Type 0 where
  unreadable not_a_mapping : HookInput
  mapping : HookPayload → HookInput

-- The decision that `main` writes: every failure is a denial.
unfoldable pub hook_main : (List ℕ → Option (List (List ℕ))) → HookInput → Decision
hook_main shlex_split unreadable = deny failed_closed
hook_main shlex_split not_a_mapping = deny malformed_hook_input
hook_main shlex_split (mapping payload) = elim (evaluate_hook shlex_split payload) [
  | ok decision ↦ decision
  | err _ ↦ deny failed_closed
]
