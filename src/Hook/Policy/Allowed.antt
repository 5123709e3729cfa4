-- ===== src/Hook/Policy/Allowed.antt =====
-- What the hook lets through.
use mathlib.Core.List.{append_assoc}
use aiops_runner.Prelude.{
  ◌≡◌, refl, ℕ, ◌<◌, ◌≤◌, String, Bool, true, false, not, Option, none, some, List, [], ◌∷◌, ◌++◌,
  leb, length, all, one_of, ok, codes, arith, ap, sym, ◌∙◌, ◌⊎◌, inl, inr, eq_iff, Option-cases,
}
use aiops_runner.Hook.Scan.{has_local_shell_control, is_fully_quoted_argument}
use aiops_runner.Hook.Scan.Segments.{Segment, render}
use aiops_runner.Hook.Scan.Argument.{is_inert_quoted, content, is_fully_quoted_argument_iff}
use aiops_runner.Hook.Words.{is_space, is_empty, strip, split_once, strip_lem, both, split_once_lem}
use aiops_runner.Hook.Policy.{
  InputValue, text, flag, scalar, structure, ToolInput, HookPayload, allow, HookInput, unreadable,
  not_a_mapping, or_empty, mapping, target_exec, same_codes, are_target_words, is_wrapped,
  valid_target_exec, get, allowed_bash_input_keys, trusted_skills, is_raised, evaluate_skill,
  evaluate_bash, evaluate_tool, evaluate_hook, hook_main, max_local_command_length,
}

same_codes→eq : (as' bs : List ℕ) → same_codes as' bs ≡ true → as' ≡ bs
unfolding same_codes
same_codes→eq [] [] h = refl
same_codes→eq [] (b ∷ bs) h = cc
same_codes→eq (a ∷ as') [] h = cc
same_codes→eq (a ∷ as') (b ∷ bs) h = ground (arith, same_codes→eq as' bs)

-- `./bin/target-exec` and one word in quotes that the local shell takes as it is, between spaces.
abbrev pub IsTargetCommand : List ℕ → Type 0
IsTargetCommand command =
    (left gap right : List ℕ) × (ss : List Segment) × (command
      ≡ left ++ (target_exec ++ (gap ++ (render ss ++ right))))
    × (all is_space left ≡ true)
    × (all is_space gap ≡ true)
    × (all is_space right ≡ true)
    × (all is_inert_quoted ss ≡ true)
    × (0 < length (content ss))

all-append :
    (p : ℕ → Bool) (xs ys : List ℕ) → all p xs ≡ true → all p ys ≡ true → all p (xs ++ ys) ≡ true
all-append p [] ys hx hy = hy
all-append p (x ∷ xs) ys hx hy = ground (arith, all-append p xs ys)

is_wrapped_parts :
    (parts : Option (List ℕ × List ℕ))
    → is_wrapped parts ≡ true
    → (argument : List ℕ) × (parts ≡ some (target_exec, argument))
      × (is_fully_quoted_argument (strip argument) ≡ true)
unfolding is_wrapped
is_wrapped_parts none h = cc
is_wrapped_parts (some (name, argument)) h = (
  argument,
  ap (λ n. some (n, argument))
      (same_codes→eq name target_exec
        (both (same_codes name target_exec) (is_fully_quoted_argument (strip argument)) h).0),
  (both (same_codes name target_exec) (is_fully_quoted_argument (strip argument)) h).1,
)

regroup :
    (l₁ l₂ t g l₃ w r₃ r₁ : List ℕ)
    → l₁ ++ ((l₂ ++ (t ++ (g ++ (l₃ ++ (w ++ r₃))))) ++ r₁)
      ≡ (l₁ ++ l₂) ++ (t ++ ((g ++ l₃) ++ (w ++ (r₃ ++ r₁))))
regroup l₁ l₂ t g l₃ w r₃ r₁ = simp append_assoc

target_command :
    (command argument : List ℕ)
    → split_once (strip command) ≡ some (target_exec, argument)
    → is_fully_quoted_argument (strip argument) ≡ true
    → IsTargetCommand command
target_command command argument parts quoted =
    let (l₁, r₁, e₁, s₁, t₁) = strip_lem command in
    let (l₂, gap, e₂, s₂, t₂) = split_once_lem (strip command) target_exec argument parts in
    let (l₃, r₃, e₃, s₃, t₃) = strip_lem argument in
    let (ss, m, i, n) = (is_fully_quoted_argument_iff (strip argument)).0 quoted in
    (
      l₁ ++ l₂,
      gap ++ l₃,
      r₃ ++ r₁,
      ss,
      e₁
          ∙ ap (λ x. l₁ ++ (x ++ r₁))
              (e₂
                ∙ ap (λ x. l₂ ++ (target_exec ++ (gap ++ x)))
                    (e₃ ∙ ap (λ x. l₃ ++ (x ++ r₃)) (sym m)))
          ∙ regroup l₁ l₂ target_exec gap l₃ (render ss) r₃ r₁,
      all-append is_space l₁ l₂ s₁ s₂,
      all-append is_space gap l₃ t₂ s₃,
      all-append is_space r₃ r₁ t₃ t₁,
      i,
      n,
    )

-- A Bash call that stays inside the boundary of the session.
abbrev pub IsConfined : (List ℕ → Option (List (List ℕ))) → ToolInput → Type 0
IsConfined shlex_split input =
    (all (λ v. one_of v.0 allowed_bash_input_keys) input ≡ true)
    × (is_raised (get "run_in_background" input) ≡ false)
    × (is_raised (get "dangerouslyDisableSandbox" input) ≡ false)
    × (t : String) × (get "command" input ≡ some (text t))
    × (length (codes t) ≤ max_local_command_length)
    × IsTargetCommand (codes t)
    × (are_target_words (shlex_split (codes t)) ≡ true)

valid_target_exec_parts :
    (shlex_split : List ℕ → Option (List (List ℕ))) (command : Option InputValue)
    → valid_target_exec shlex_split command ≡ true
    → (t : String) × (command ≡ some (text t))
      × (leb (length (codes t)) max_local_command_length ≡ true)
      × (is_wrapped (split_once (strip (codes t))) ≡ true)
      × (are_target_words (shlex_split (codes t)) ≡ true)
unfolding valid_target_exec
valid_target_exec_parts shlex_split none h = cc
valid_target_exec_parts shlex_split (some (text t)) h =
    let (a, h₁) = both (not (is_empty (strip (codes t)))) _ h in
    let (b, h₂) = both (leb (length (codes t)) max_local_command_length) _ h₁ in
    let (c, h₃) = both (not (has_local_shell_control (codes t))) _ h₂ in
    let (d, e) =
      both (is_wrapped (split_once (strip (codes t)))) (are_target_words (shlex_split (codes t)))
        h₃ in
    (t, refl, b, d, e)
valid_target_exec_parts shlex_split (some (flag b)) h = cc
valid_target_exec_parts shlex_split (some scalar) h = cc
valid_target_exec_parts shlex_split (some structure) h = cc

evaluate_bash_parts :
    (shlex_split : List ℕ → Option (List (List ℕ))) (input : ToolInput)
    → evaluate_bash shlex_split input ≡ allow
    → (all (λ v. one_of v.0 allowed_bash_input_keys) input ≡ true)
      × (is_raised (get "run_in_background" input) ≡ false)
      × (is_raised (get "dangerouslyDisableSandbox" input) ≡ false)
      × (valid_target_exec shlex_split (get "command" input) ≡ true)
unfolding evaluate_bash
evaluate_bash_parts shlex_split input h = ground arith

evaluate_bash-IsConfined :
    (shlex_split : List ℕ → Option (List (List ℕ))) (input : ToolInput)
    → evaluate_bash shlex_split input ≡ allow
    → IsConfined shlex_split input
evaluate_bash-IsConfined shlex_split input h =
    let (keys, b, s, v) = evaluate_bash_parts shlex_split input h in
    let (t, e, l, w, words) = valid_target_exec_parts shlex_split (get "command" input) v in
    let (argument, parts, quoted) = is_wrapped_parts (split_once (strip (codes t))) w in
    (keys, b, s, t, e, ground arith, target_command (codes t) argument parts quoted, words)

-- A tool call that the hook is there to let through.
abbrev pub IsPermitted : (List ℕ → Option (List (List ℕ))) → String → ToolInput → Type 0
IsPermitted shlex_split tool input =
    (tool ≡ "StructuredOutput")
    ⊎ ((tool ≡ "Skill")
        × (skill : String) × (get "skill" input ≡ some (text skill))
        × (one_of skill trusted_skills ≡ true))
    ⊎ ((tool ≡ "Bash") × IsConfined shlex_split input)

evaluate_skill_parts :
    (skill : Option InputValue)
    → evaluate_skill skill ≡ ok allow
    → (t : String) × (skill ≡ some (text t)) × (one_of t trusted_skills ≡ true)
unfolding evaluate_skill
evaluate_skill_parts none h = cc
evaluate_skill_parts (some (text t)) h = (t, refl, ground arith)
evaluate_skill_parts (some (flag b)) h = cc
evaluate_skill_parts (some scalar) h = cc
evaluate_skill_parts (some structure) h = cc

evaluate_tool_parts :
    (shlex_split : List ℕ → Option (List (List ℕ))) (tool : String) (input : ToolInput)
    → evaluate_tool shlex_split tool input ≡ ok allow
    → (tool ≡ "StructuredOutput")
      ⊎ ((tool ≡ "Skill") × (evaluate_skill (get "skill" input) ≡ ok allow))
      ⊎ ((tool ≡ "Bash") × (evaluate_bash shlex_split input ≡ allow))
unfolding evaluate_tool
evaluate_tool_parts shlex_split tool input h =
    ground (arith, eq_iff tool "StructuredOutput", eq_iff tool "Skill", eq_iff tool "Bash")

evaluate_tool-IsPermitted :
    (shlex_split : List ℕ → Option (List (List ℕ))) (tool : String) (input : ToolInput)
    → evaluate_tool shlex_split tool input ≡ ok allow
    → IsPermitted shlex_split tool input
evaluate_tool-IsPermitted shlex_split tool input h =
    elim (evaluate_tool_parts shlex_split tool input h) [
      | inl e ↦ inl e
      | inr (inl (e, s)) ↦
          (let (t, k, o) = evaluate_skill_parts (get "skill" input) s in inr (inl (e, t, k, o)))
      | inr (inr (e, b)) ↦ inr (inr (e, evaluate_bash-IsConfined shlex_split input b))
    ]

evaluate_hook_parts :
    (shlex_split : List ℕ → Option (List (List ℕ))) (payload : HookPayload)
    → evaluate_hook shlex_split payload ≡ ok allow
    → (input : ToolInput) × (payload.tool_input ≡ some input)
      × (payload.hook_event_name ≡ some "PreToolUse")
      × (evaluate_tool shlex_split (or_empty payload.tool_name) input ≡ ok allow)
unfolding evaluate_hook
evaluate_hook_parts shlex_split payload h = elim (Option-cases payload.tool_input) [
  | inl n ↦ absurd (ground arith)
  | inr (input, e) ↦ elim (Option-cases payload.hook_event_name) [
    | inl n ↦ absurd (ground arith)
    | inr (name, f) ↦ (input, e, ground (arith, eq_iff name "PreToolUse"), ground arith)
  ]
]

evaluate_hook-IsPermitted :
    (shlex_split : List ℕ → Option (List (List ℕ))) (payload : HookPayload)
    → evaluate_hook shlex_split payload ≡ ok allow
    → (input : ToolInput) × (payload.tool_input ≡ some input)
      × (payload.hook_event_name ≡ some "PreToolUse")
      × IsPermitted shlex_split (or_empty payload.tool_name) input
evaluate_hook-IsPermitted shlex_split payload h =
    let (input, e, f, t) = evaluate_hook_parts shlex_split payload h in
    (input, e, f, evaluate_tool-IsPermitted shlex_split (or_empty payload.tool_name) input t)

hook_main-allow :
    (shlex_split : List ℕ → Option (List (List ℕ))) (payload : HookPayload)
    → hook_main shlex_split (mapping payload) ≡ allow
    → evaluate_hook shlex_split payload ≡ ok allow
unfolding hook_main
hook_main-allow shlex_split payload h = ground arith

-- What the hook allows is a `PreToolUse` payload with a tool input that calls either the structured
-- output, or one of the three trusted skills, or Bash with no member but the five known ones, neither in
-- the background nor without the sandbox, and with a command of at most 65536 characters that is
-- `./bin/target-exec` and one word in quotes that the local shell takes as it is, between spaces, of
-- which `shlex.split` makes two words, the first `./bin/target-exec` and the second not blank. Unreadable
-- and malformed input is never allowed.
pub hook_main-allows :
    (shlex_split : List ℕ → Option (List (List ℕ))) (hook_input : HookInput)
    → hook_main shlex_split hook_input ≡ allow
    → (payload : HookPayload) × (input : ToolInput) × (hook_input ≡ mapping payload)
      × (payload.hook_event_name ≡ some "PreToolUse")
      × (payload.tool_input ≡ some input)
      × IsPermitted shlex_split (or_empty payload.tool_name) input
unfolding hook_main
hook_main-allows shlex_split unreadable h = cc
hook_main-allows shlex_split not_a_mapping h = cc
hook_main-allows shlex_split (mapping payload) h =
    let (input, e, f, p) =
      evaluate_hook-IsPermitted shlex_split payload (hook_main-allow shlex_split payload h) in
    (payload, input, refl, f, e, p)
