-- ===== src/Hook/Scan/Argument.antt =====
-- What `_is_fully_quoted_argument` accepts, described by the segments of a shell word.
use aiops_runner.Prelude.{
  ◌≡◌, subst, refl, length-append, ℕ, suc, ◌+◌, ◌<◌, Bool, true, false, ◌&&◌, some, List, [], ◌∷◌,
  ◌++◌, all, length, arith, ap, ap₂, sym, ◌∙◌, ◌⊎◌, inl, inr, Option-cases, ◌↔◌,
}
use aiops_runner.Hook.Scan.{
  is_line_break, single_quote, double_quote, is_expansion, Quote, unquoted, in_single, in_double,
  argument_step, argument_from, is_fully_quoted_argument,
}
use aiops_runner.Hook.Scan.Segments.{
  Segment, plain, single, double, render, is_single_text, is_double_text, is_inert, and_split,
}

abbrev pub is_quoted : Segment → Bool
is_quoted (plain c) = false
is_quoted (single body) = true
is_quoted (double body) = true

abbrev pub is_inert_quoted : Segment → Bool
is_inert_quoted s = is_quoted s && is_inert s

-- What the word holds once its quotes are taken off.
abbrev pub content : List Segment → List ℕ
content [] = []
content (plain c ∷ ss) = c ∷ content ss
content (single body ∷ ss) = body ++ content ss
content (double body ∷ ss) = body ++ content ss

argument-single :
    (body rest : List ℕ) (n : ℕ)
    → all is_single_text body ≡ true
    → argument_from in_single n (body ++ single_quote ∷ rest)
      ≡ argument_from unquoted (length body + n) rest
unfolding argument_from argument_step is_single_text is_line_break
argument-single [] rest n h = ground arith
argument-single (c ∷ body) rest n h = ground (arith, argument-single body rest (suc n))

argument-double :
    (body rest : List ℕ) (n : ℕ)
    → all is_double_text body ≡ true
    → argument_from in_double n (body ++ double_quote ∷ rest)
      ≡ argument_from unquoted (length body + n) rest
unfolding argument_from argument_step is_double_text is_line_break is_expansion
argument-double [] rest n h = ground arith
argument-double (c ∷ body) rest n h = ground (arith, argument-double body rest (suc n))

argument-render :
    (ss : List Segment) (n : ℕ)
    → all is_inert_quoted ss ≡ true
    → 0 < length (content ss) + n
    → argument_from unquoted n (render ss) ≡ true
unfolding argument_from argument_step
argument-render [] n h l = ground arith
argument-render (plain c ∷ ss) n h l = absurd (ground arith)
argument-render (single body ∷ ss) n h l =
    let (b, i) = and_split (all is_single_text body) (all is_inert_quoted ss) h in
    argument-single body (render ss) n b
    ∙ argument-render ss (length body + n) i (omega (arith, l, length-append body (content ss)))
argument-render (double body ∷ ss) n h l =
    let (b, i) = and_split (all is_double_text body) (all is_inert_quoted ss) h in
    argument-double body (render ss) n b
    ∙ argument-render ss (length body + n) i (omega (arith, l, length-append body (content ss)))

-- What is left to read, inside and outside quotes.
abbrev Rest : Quote → ℕ → List ℕ → Type 0
Rest unquoted n cs =
    (ss : List Segment) × (render ss ≡ cs)
    × (all is_inert_quoted ss ≡ true)
    × (0 < length (content ss) + n)
Rest in_single n cs =
    (body : List ℕ) × (ss : List Segment) × (body ++ single_quote ∷ render ss ≡ cs)
    × (all is_single_text body ≡ true)
    × (all is_inert_quoted ss ≡ true)
    × (0 < length (content ss) + (length body + n))
Rest in_double n cs =
    (body : List ℕ) × (ss : List Segment) × (body ++ double_quote ∷ render ss ≡ cs)
    × (all is_double_text body ≡ true)
    × (all is_inert_quoted ss ≡ true)
    × (0 < length (content ss) + (length body + n))

-- What one turn of the loops reads.
step_unquoted :
    (c n m : ℕ) (r : Quote)
    → argument_step unquoted n c ≡ some (r, m)
    → ((r ≡ in_single) × (c ≡ single_quote) × (m ≡ n))
      ⊎ ((r ≡ in_double) × (c ≡ double_quote) × (m ≡ n))
unfolding argument_step
step_unquoted c n m r h = ground arith

step_single :
    (c n m : ℕ) (r : Quote)
    → argument_step in_single n c ≡ some (r, m)
    → ((r ≡ in_single) × (is_single_text c ≡ true) × (m ≡ suc n))
      ⊎ ((r ≡ unquoted) × (c ≡ single_quote) × (m ≡ n))
unfolding argument_step is_single_text
step_single c n m r h = ground arith

step_double :
    (c n m : ℕ) (r : Quote)
    → argument_step in_double n c ≡ some (r, m)
    → ((r ≡ in_double) × (is_double_text c ≡ true) × (m ≡ suc n))
      ⊎ ((r ≡ unquoted) × (c ≡ double_quote) × (m ≡ n))
unfolding argument_step is_double_text is_expansion
step_double c n m r h = ground arith

argument_from-cons :
    (q : Quote) (n c : ℕ) (cs : List ℕ)
    → argument_from q n (c ∷ cs) ≡ true
    → (r : Quote) × (m : ℕ) × (argument_step q n c ≡ some (r, m)) × (argument_from r m cs ≡ true)
unfolding argument_from
argument_from-cons q n c cs h = elim (Option-cases (argument_step q n c)) [
  | inl e ↦ absurd (ground arith)
  | inr ((r, m), e) ↦ (r, m, e, ground arith)
]

read : (q : Quote) (n : ℕ) (cs : List ℕ) → argument_from q n cs ≡ true → Rest q n cs
unfolding argument_from
read unquoted n [] h = ([], refl, refl, ground arith)
read in_single n [] h = absurd (ground arith)
read in_double n [] h = absurd (ground arith)
read unquoted n (c ∷ cs) h =
    let (r, m, e, k) = argument_from-cons unquoted n c cs h in
    elim (step_unquoted c n m r e) [
      | inl (s, p, z) ↦
          let (body, ss, w, b, i, l) = read in_single n cs (rw⁻¹ s (rw⁻¹ z k)) in
          (
            single body ∷ ss,
            ap₂ (λ x xs. x ∷ xs) (sym p) w,
            rw (b, i),
            omega (arith, l, length-append body (content ss)),
          )
      | inr (s, p, z) ↦
          let (body, ss, w, b, i, l) = read in_double n cs (rw⁻¹ s (rw⁻¹ z k)) in
          (
            double body ∷ ss,
            ap₂ (λ x xs. x ∷ xs) (sym p) w,
            rw (b, i),
            omega (arith, l, length-append body (content ss)),
          )
    ]
read in_single n (c ∷ cs) h =
    let (r, m, e, k) = argument_from-cons in_single n c cs h in
    elim (step_single c n m r e) [
      | inl (s, p, z) ↦
          let (body, ss, w, b, i, l) = read in_single (suc n) cs (rw⁻¹ s (rw⁻¹ z k)) in
          (c ∷ body, ss, ap (c ∷◌) w, rw (p, b), i, omega (arith, l))
      | inr (s, p, z) ↦
          let (ss, w, i, l) = read unquoted n cs (rw⁻¹ s (rw⁻¹ z k)) in
          ([], ss, ap₂ (λ x xs. x ∷ xs) (sym p) w, refl, i, omega (arith, l))
    ]
read in_double n (c ∷ cs) h =
    let (r, m, e, k) = argument_from-cons in_double n c cs h in
    elim (step_double c n m r e) [
      | inl (s, p, z) ↦
          let (body, ss, w, b, i, l) = read in_double (suc n) cs (rw⁻¹ s (rw⁻¹ z k)) in
          (c ∷ body, ss, ap (c ∷◌) w, rw (p, b), i, omega (arith, l))
      | inr (s, p, z) ↦
          let (ss, w, i, l) = read unquoted n cs (rw⁻¹ s (rw⁻¹ z k)) in
          ([], ss, ap₂ (λ x xs. x ∷ xs) (sym p) w, refl, i, omega (arith, l))
    ]

-- A text is taken as a fully quoted argument exactly when it is a sequence of single and double quoted
-- segments, each inert for the local shell, whose contents together are not empty.
pub is_fully_quoted_argument_iff :
    (value : List ℕ)
    → (is_fully_quoted_argument value ≡ true) ↔ (
        (ss : List Segment) × (render ss ≡ value)
        × (all is_inert_quoted ss ≡ true)
        × (0 < length (content ss)))
unfolding is_fully_quoted_argument
is_fully_quoted_argument_iff value = (
  λ h. let (ss, w, i, l) = read unquoted 0 value h in (ss, w, i, omega (arith, l)),
  λ (ss, w, i, l).
      subst (λ cs. argument_from unquoted 0 cs ≡ true) w
        (argument-render ss 0 i (omega (arith, l))),
)
