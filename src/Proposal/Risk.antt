-- ===== src/Proposal/Risk.antt =====
-- `command_is_high_risk` of runner/runner/trusted_proposal_draft.py on code points. `shlex.split` is
-- a parameter, `none` where it raises ValueError.
pub mod Compound
use aiops_runner.Prelude.{
  ℕ, String, Bool, true, false, not, ◌&&◌, ◌||◌, Option, none, some, List, [], ◌∷◌, ◌==◌, all, any,
  codes, if◌then◌else◌,
}
use aiops_runner.Hook.Words.{is_space}
use aiops_runner.Hook.Policy.{same_codes}

-- The characters of `[;&|><\`\r\n]`
unfoldable pub is_control : ℕ → Bool
is_control c =
    c == 59
    || (c == 38 || (c == 124 || (c == 62 || (c == 60 || (c == 96 || (c == 13 || c == 10))))))

-- `$` before `(` or `{`
abbrev pub opens : List ℕ → Bool
opens [] = false
opens (c ∷ cs) = c == 40 || c == 123

-- `_SHELL_CONTROL.search(command)`
unfoldable pub has_shell_control : List ℕ → Bool
unfolding is_control
has_shell_control [] = false
has_shell_control (c ∷ cs) = is_control c || (c == 36 && opens cs || has_shell_control cs)

-- `os.path.basename`: what stands after the last `/`.
unfoldable pub basename : List ℕ → List ℕ
basename [] = []
basename (c ∷ cs) =
    let rest = basename cs in if any (λ d. d == 47) cs then rest else if c == 47 then cs else c ∷ cs

abbrev is_one_of : List ℕ → List String → Bool
unfolding same_codes
is_one_of word [] = false
is_one_of word (name ∷ names) = same_codes word (codes name) || is_one_of word names

abbrev read_only_programs : List String
read_only_programs =
    "[" ∷ "df" ∷ "du" ∷ "findmnt" ∷ "free" ∷ "id" ∷ "ls" ∷ "ps" ∷ "pwd" ∷ "ss" ∷ "stat" ∷ "test"
    ∷ "true" ∷ "uname" ∷ "uptime" ∷ "whoami" ∷ []

abbrev read_only_systemctl_actions : List String
read_only_systemctl_actions =
    "is-active" ∷ "is-enabled" ∷ "is-failed" ∷ "list-dependencies" ∷ "list-unit-files"
    ∷ "list-units" ∷ "show" ∷ "status" ∷ []

-- `item.startswith("-")`
abbrev is_flag : List ℕ → Bool
is_flag [] = false
is_flag (c ∷ cs) = c == 45

-- `next((item for item in words if not item.startswith("-")), "")`
unfoldable pub first_action : List (List ℕ) → List ℕ
first_action [] = []
first_action (w ∷ ws) = let rest = first_action ws in if is_flag w then rest else w

unfoldable pub is_read_only_program : List ℕ → Bool
unfolding same_codes
is_read_only_program program = is_one_of program read_only_programs

unfoldable pub is_read_only_action : List ℕ → Bool
unfolding same_codes
is_read_only_action action = is_one_of action read_only_systemctl_actions

-- The words of the command.
unfoldable pub are_high_risk : Option (List (List ℕ)) → Bool
unfolding is_read_only_program is_read_only_action basename first_action same_codes
are_high_risk none = true
are_high_risk (some []) = true
are_high_risk (some (name ∷ [])) = not (is_read_only_program (basename name))
are_high_risk (some (name ∷ argument ∷ arguments)) =
    if is_read_only_program (basename name)
    then false
    else if same_codes (basename name) (codes "systemctl")
    then not (is_read_only_action (first_action (argument ∷ arguments)))
    else true

unfoldable pub command_is_high_risk : (List ℕ → Option (List (List ℕ))) → List ℕ → Bool
unfolding is_space has_shell_control are_high_risk
command_is_high_risk split command =
    all is_space command || (has_shell_control command || are_high_risk (split command))
