-- ===== src/Hook/Scan.antt =====
-- `_has_local_shell_control` and `_is_fully_quoted_argument` of
-- agent-project-trusted/bin/trusted_tool_hook.py, on the code points of a text. A loop over an
-- index is a recursion on the text; a turn of the loop gives the next quote or stops it.
pub mod Segments
pub mod Argument
use aiops_runner.Prelude.{
  ℕ, zero, suc, Bool, true, false, not, ◌&&◌, ◌||◌, Option, none, some, List, [], ◌∷◌,
  if◌then◌else◌, ltb, ◌==◌,
}

-- NUL, carriage return and line feed
unfoldable pub is_line_break : ℕ → Bool
is_line_break c = c == 0 || (c == 13 || c == 10)

abbrev pub single_quote : ℕ
single_quote = 39

abbrev pub double_quote : ℕ
double_quote = 34

abbrev pub backslash : ℕ
backslash = 92

-- `char in "$`"`
unfoldable pub is_expansion : ℕ → Bool
is_expansion c = c == 36 || c == 96

abbrev is_one_of : ℕ → List ℕ → Bool
is_one_of c [] = false
is_one_of c (d ∷ ds) = c == d || is_one_of c ds

-- `char in ";&|<>(){}#*?[]~"`
unfoldable pub is_operator : ℕ → Bool
is_operator c =
    is_one_of c (59 ∷ 38 ∷ 124 ∷ 60 ∷ 62 ∷ 40 ∷ 41 ∷ 123 ∷ 125 ∷ 35 ∷ 42 ∷ 63 ∷ 91 ∷ 93 ∷ 126 ∷ [])

pub data Quote : Type 0 where
  unquoted in_single in_double : Quote

-- One turn of the loop: the quote at the next character, or nothing where it returns true.
unfoldable pub control_step : Quote → ℕ → Option Quote
control_step in_single c =
    if is_line_break c then none else if c == single_quote then some unquoted else some in_single
control_step in_double c =
    if is_line_break c
    then none
    else if c == backslash
    then none
    else if c == single_quote
    then some in_double
    else if c == double_quote
    then some unquoted
    else if is_expansion c
    then none
    else some in_double
control_step unquoted c =
    if is_line_break c
    then none
    else if c == backslash
    then none
    else if c == single_quote
    then some in_single
    else if c == double_quote
    then some in_double
    else if is_expansion c
    then none
    else if is_operator c
    then none
    else some unquoted

abbrev is_open : Quote → Bool
is_open unquoted = false
is_open in_single = true
is_open in_double = true

unfoldable pub control_from : Quote → List ℕ → Bool
unfolding control_step
control_from q [] = is_open q
control_from q (c ∷ cs) = elim (control_step q c) [ none ↦ true | some r ↦ control_from r cs ]

unfoldable pub has_local_shell_control : List ℕ → Bool
has_local_shell_control command = control_from unquoted command

-- One turn of the two loops of `_is_fully_quoted_argument`: the quote and the content's length at
-- the next character, or nothing where it returns false.
unfoldable pub argument_step : Quote → ℕ → ℕ → Option (Quote × ℕ)
argument_step unquoted n c =
    if c == single_quote
    then some (in_single, n)
    else if c == double_quote
    then some (in_double, n)
    else none
argument_step in_single n c =
    if c == single_quote
    then some (unquoted, n)
    else if is_line_break c
    then none
    else some (in_single, suc n)
argument_step in_double n c =
    if c == double_quote
    then some (unquoted, n)
    else if is_line_break c
    then none
    else if is_expansion c || c == backslash
    then none
    else some (in_double, suc n)

unfoldable pub argument_from : Quote → ℕ → List ℕ → Bool
unfolding argument_step
argument_from q n [] = not (is_open q) && ltb 0 n
argument_from q n (c ∷ cs) = elim (argument_step q n c) [
  | none ↦ false
  | some next ↦ argument_from next.0 next.1 cs
]

unfoldable pub is_fully_quoted_argument : List ℕ → Bool
is_fully_quoted_argument value = argument_from unquoted 0 value
