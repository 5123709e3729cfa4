-- ===== src/Hook/Scan/Segments.antt =====
-- What the two scanners accept, described by the segments of a shell word.
use aiops_runner.Prelude.{
  ◌≡◌, subst, refl, ℕ, Bool, true, false, not, ◌&&◌, some, List, [], ◌∷◌, ◌++◌, ◌==◌, all, arith,
  ap, ap₂, sym, ◌∙◌, ◌⊎◌, inl, inr, Option-cases, ◌↔◌,
}
use aiops_runner.Hook.Scan.{
  is_line_break, single_quote, double_quote, backslash, is_expansion, is_operator, Quote, unquoted,
  in_single, in_double, control_step, control_from, has_local_shell_control,
}

-- A character outside quotes, and the text between two single or two double quotes.
pub data Segment : Type 0 where
  plain : ℕ → Segment
  single double : List ℕ → Segment

abbrev pub render : List Segment → List ℕ
render [] = []
render (plain c ∷ ss) = c ∷ render ss
render (single body ∷ ss) = single_quote ∷ (body ++ single_quote ∷ render ss)
render (double body ∷ ss) = double_quote ∷ (body ++ double_quote ∷ render ss)

-- The characters that the local shell takes as they are in each place.
unfoldable pub is_single_text : ℕ → Bool
is_single_text c = not (is_line_break c) && not (c == single_quote)

unfoldable pub is_double_text : ℕ → Bool
is_double_text c =
    not (is_line_break c)
    && (not (c == double_quote) && (not (is_expansion c) && not (c == backslash)))

unfoldable pub is_plain_text : ℕ → Bool
unfolding is_double_text
is_plain_text c = is_double_text c && (not (c == single_quote) && not (is_operator c))

abbrev pub is_inert : Segment → Bool
is_inert (plain c) = is_plain_text c
is_inert (single body) = all is_single_text body
is_inert (double body) = all is_double_text body

-- What is left to read, inside and outside quotes.
abbrev Rest : Quote → List ℕ → Type 0
Rest unquoted cs = (ss : List Segment) × (render ss ≡ cs) × (all is_inert ss ≡ true)
Rest in_single cs =
    (body : List ℕ) × (ss : List Segment) × (body ++ single_quote ∷ render ss ≡ cs)
    × (all is_single_text body ≡ true)
    × (all is_inert ss ≡ true)
Rest in_double cs =
    (body : List ℕ) × (ss : List Segment) × (body ++ double_quote ∷ render ss ≡ cs)
    × (all is_double_text body ≡ true)
    × (all is_inert ss ≡ true)

-- What one turn of the loop reads.
step_unquoted :
    (c : ℕ) (r : Quote)
    → control_step unquoted c ≡ some r
    → ((r ≡ unquoted) × (is_plain_text c ≡ true))
      ⊎ ((r ≡ in_single) × (c ≡ single_quote))
      ⊎ ((r ≡ in_double) × (c ≡ double_quote))
unfolding control_step is_plain_text is_double_text
step_unquoted c r h = ground arith

step_single :
    (c : ℕ) (r : Quote)
    → control_step in_single c ≡ some r
    → ((r ≡ in_single) × (is_single_text c ≡ true)) ⊎ ((r ≡ unquoted) × (c ≡ single_quote))
unfolding control_step is_single_text
step_single c r h = ground arith

step_double :
    (c : ℕ) (r : Quote)
    → control_step in_double c ≡ some r
    → ((r ≡ in_double) × (is_double_text c ≡ true)) ⊎ ((r ≡ unquoted) × (c ≡ double_quote))
unfolding control_step is_double_text is_expansion
step_double c r h = ground arith

control_from-cons :
    (q : Quote) (c : ℕ) (cs : List ℕ)
    → control_from q (c ∷ cs) ≡ false
    → (r : Quote) × (control_step q c ≡ some r) × (control_from r cs ≡ false)
unfolding control_from
control_from-cons q c cs h = elim (Option-cases (control_step q c)) [
  | inl n ↦ absurd (ground arith)
  | inr (r, e) ↦ (r, e, ground arith)
]

read : (q : Quote) (cs : List ℕ) → control_from q cs ≡ false → Rest q cs
unfolding control_from
read unquoted [] h = ([], refl, refl)
read in_single [] h = absurd (ground arith)
read in_double [] h = absurd (ground arith)
read unquoted (c ∷ cs) h =
    let (r, e, k) = control_from-cons unquoted c cs h in
    elim (step_unquoted c r e) [
      | inl (s, p) ↦
          let (ss, m, i) = read unquoted cs (rw⁻¹ s k) in (plain c ∷ ss, ap (c ∷◌) m, rw (p, i))
      | inr (inl (s, p)) ↦
          let (body, ss, m, b, i) = read in_single cs (rw⁻¹ s k) in
          (single body ∷ ss, ap₂ (λ x xs. x ∷ xs) (sym p) m, rw (b, i))
      | inr (inr (s, p)) ↦
          let (body, ss, m, b, i) = read in_double cs (rw⁻¹ s k) in
          (double body ∷ ss, ap₂ (λ x xs. x ∷ xs) (sym p) m, rw (b, i))
    ]
read in_single (c ∷ cs) h =
    let (r, e, k) = control_from-cons in_single c cs h in
    elim (step_single c r e) [
      | inl (s, p) ↦
          let (body, ss, m, b, i) = read in_single cs (rw⁻¹ s k) in
          (c ∷ body, ss, ap (c ∷◌) m, rw (p, b), i)
      | inr (s, p) ↦
          let (ss, m, i) = read unquoted cs (rw⁻¹ s k) in
          ([], ss, ap₂ (λ x xs. x ∷ xs) (sym p) m, refl, i)
    ]
read in_double (c ∷ cs) h =
    let (r, e, k) = control_from-cons in_double c cs h in
    elim (step_double c r e) [
      | inl (s, p) ↦
          let (body, ss, m, b, i) = read in_double cs (rw⁻¹ s k) in
          (c ∷ body, ss, ap (c ∷◌) m, rw (p, b), i)
      | inr (s, p) ↦
          let (ss, m, i) = read unquoted cs (rw⁻¹ s k) in
          ([], ss, ap₂ (λ x xs. x ∷ xs) (sym p) m, refl, i)
    ]

control-single :
    (body rest : List ℕ)
    → all is_single_text body ≡ true
    → control_from in_single (body ++ single_quote ∷ rest) ≡ control_from unquoted rest
unfolding control_from control_step is_single_text is_line_break
control-single [] rest h = refl
control-single (c ∷ body) rest h = ground (arith, control-single body rest)

control-double :
    (body rest : List ℕ)
    → all is_double_text body ≡ true
    → control_from in_double (body ++ double_quote ∷ rest) ≡ control_from unquoted rest
unfolding control_from control_step is_double_text is_line_break is_expansion
control-double [] rest h = refl
control-double (c ∷ body) rest h = ground (arith, control-double body rest)

plain_step : (c : ℕ) → is_plain_text c ≡ true → control_step unquoted c ≡ some unquoted
unfolding control_step is_plain_text is_double_text is_line_break is_expansion
plain_step c h = ground arith

pub and_split : (a b : Bool) → (a && b) ≡ true → (a ≡ true) × (b ≡ true)
and_split a b h = ground arith

control-render :
    (ss : List Segment) → all is_inert ss ≡ true → control_from unquoted (render ss) ≡ false
unfolding control_from is_line_break is_expansion
control-render [] h = refl
control-render (plain c ∷ ss) h =
    let (p, i) = and_split (is_plain_text c) (all is_inert ss) h in
    rw (control_from, plain_step c p) (control-render ss i)
control-render (single body ∷ ss) h =
    let (b, i) = and_split (all is_single_text body) (all is_inert ss) h in
    control-single body (render ss) b ∙ control-render ss i
control-render (double body ∷ ss) h =
    let (b, i) = and_split (all is_double_text body) (all is_inert ss) h in
    control-double body (render ss) b ∙ control-render ss i

-- The scanner finds no local shell control in a command exactly when the command is a sequence of
-- inert segments: characters that the shell takes as they are, texts between single quotes, and texts
-- between double quotes with no expansion and no backslash; none holds NUL or a line break.
pub has_local_shell_control_iff :
    (command : List ℕ)
    → (has_local_shell_control command ≡ false)
      ↔ ((ss : List Segment) × (render ss ≡ command) × (all is_inert ss ≡ true))
unfolding has_local_shell_control
has_local_shell_control_iff command = (
  read unquoted command,
  λ (ss, m, i). subst (λ cs. control_from unquoted cs ≡ false) m (control-render ss i),
)
