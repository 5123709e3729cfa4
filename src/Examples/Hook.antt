-- ===== src/Examples/Hook.antt =====
-- Witnesses for agent-project-trusted/bin/trusted_tool_hook.py.
use aiops_runner.Prelude.{◌≡◌, refl, ℕ, true, Option, some, List, [], ◌∷◌, all, codes}
use aiops_runner.Hook.Scan.{
  has_local_shell_control, control_from, control_step, is_line_break, is_expansion, is_operator,
  is_fully_quoted_argument, argument_from,
}
use aiops_runner.Hook.Scan.Segments.{Segment, render, is_inert, has_local_shell_control_iff}
use aiops_runner.Hook.Policy.{
  HookPayload, mapping, ToolInput, text, hook_main, evaluate_hook, valid_target_exec, target_exec,
  or_empty,
}
use aiops_runner.Hook.Words.{strip, is_space, split_once, first_word, after_word}
use aiops_runner.Hook.Policy.Allowed.{IsPermitted, hook_main-allows}

abbrev quoted_call : List ℕ
quoted_call = codes "./bin/target-exec 'df | sort'"

has_local_shell_control_iff_example :
    (ss : List Segment) × (render ss ≡ quoted_call) × (all is_inert ss ≡ true)
unfolding has_local_shell_control control_from control_step is_line_break is_expansion is_operator
has_local_shell_control_iff_example = (has_local_shell_control_iff quoted_call).0 refl

abbrev quoted_word : List ℕ
quoted_word = codes "'df | sort'"

-- What `shlex.split` makes of the call below.
abbrev two_words : List ℕ → Option (List (List ℕ))
two_words _ = some (target_exec ∷ codes "df" ∷ [])

abbrev bash_input : ToolInput
bash_input = ("command", text "./bin/target-exec 'df'") ∷ []

abbrev bash_payload : HookPayload
bash_payload = record {
  hook_event_name = some "PreToolUse";
  tool_name = some "Bash";
  tool_input = some bash_input;
}

hook_main-allows_example :
    (payload : HookPayload) × (input : ToolInput) × (mapping bash_payload ≡ mapping payload)
    × (payload.hook_event_name ≡ some "PreToolUse")
    × (payload.tool_input ≡ some input)
    × IsPermitted two_words (or_empty payload.tool_name) input
unfolding hook_main evaluate_hook valid_target_exec strip is_space has_local_shell_control
    control_from is_line_break is_expansion is_operator split_once first_word after_word
    is_fully_quoted_argument argument_from
hook_main-allows_example = hook_main-allows two_words (mapping bash_payload) refl
