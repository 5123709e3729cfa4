-- ===== src/Proposal/Risk/Compound.antt =====
-- No command with shell control in it passes as low risk.
use aiops_runner.Prelude.{◌≡◌, refl, ℕ, true, Option, List, [], ◌∷◌, ◌++◌, arith}
use aiops_runner.Proposal.Risk.{is_control, opens, has_shell_control, command_is_high_risk}

-- What the shell acts on: a control character, or the start of a substitution.
pub data IsShellControl : List ℕ → Type 0 where
  control : (c : ℕ) → is_control c ≡ true → IsShellControl (c ∷ [])
  substitution : IsShellControl (36 ∷ 40 ∷ [])
  expansion : IsShellControl (36 ∷ 123 ∷ [])

opens-append : (xs ys : List ℕ) → opens xs ≡ true → opens (xs ++ ys) ≡ true
opens-append [] ys h = cc
opens-append (x ∷ xs) ys h = h

has_shell_control-here :
    (part after : List ℕ) → IsShellControl part → has_shell_control (part ++ after) ≡ true
unfolding has_shell_control
has_shell_control-here _ after (control c h) = rw (h) refl
has_shell_control-here _ after substitution = ground arith
has_shell_control-here _ after expansion = ground arith

has_shell_control-inside :
    (before part after : List ℕ)
    → IsShellControl part
    → has_shell_control (before ++ (part ++ after)) ≡ true
unfolding has_shell_control
has_shell_control-inside [] part after h = has_shell_control-here part after h
has_shell_control-inside (c ∷ cs) part after h =
    ground (arith, has_shell_control-inside cs part after h)

-- Wherever a command has one of ; & | > < `, a line break, `$(` or `${`, quoted or not, it is high
-- risk, however `shlex` splits it.
pub command_is_high_risk-compound :
    (split : List ℕ → Option (List (List ℕ))) (before part after : List ℕ)
    → IsShellControl part
    → command_is_high_risk split (before ++ (part ++ after)) ≡ true
unfolding command_is_high_risk
command_is_high_risk-compound split before part after h =
    ground (arith, has_shell_control-inside before part after h)
