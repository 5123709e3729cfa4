-- ===== src/Hook/Words.antt =====
-- `str.strip` and `str.split(maxsplit=1)` as trusted_tool_hook.py uses them, on code points.
use aiops_runner.Prelude.{
  ◌≡◌, refl, ℕ, Bool, true, false, ◌&&◌, ◌||◌, Option, none, some, List, [], ◌∷◌, ◌++◌,
  if◌then◌else◌, leb, ◌==◌, all, arith, ap, ap₂, ◌∙◌, Bool-cases, inl, inr,
}

-- `str.isspace`
unfoldable pub is_space : ℕ → Bool
is_space c =
    leb 9 c && leb c 13
    || (leb 28 c && leb c 32
        || (c == 133
            || (c == 160
                || (c == 5760
                    || (leb 8192 c && leb c 8202
                        || (c == 8232
                            || (c == 8233 || (c == 8239 || (c == 8287 || c == 12288)))))))))

abbrev pub is_empty : List ℕ → Bool
is_empty [] = true
is_empty (c ∷ cs) = false

unfoldable pub drop_spaces : List ℕ → List ℕ
drop_spaces [] = []
drop_spaces (c ∷ cs) = if is_space c then drop_spaces cs else c ∷ cs

unfoldable pub drop_last_spaces : List ℕ → List ℕ
drop_last_spaces [] = []
drop_last_spaces (c ∷ cs) =
    let rest = drop_last_spaces cs in if is_space c && is_empty rest then [] else c ∷ rest

unfoldable pub strip : List ℕ → List ℕ
unfolding drop_spaces drop_last_spaces
strip cs = drop_last_spaces (drop_spaces cs)

unfoldable pub first_word : List ℕ → List ℕ
first_word [] = []
first_word (c ∷ cs) = let word = first_word cs in if is_space c then [] else c ∷ word

unfoldable pub after_word : List ℕ → List ℕ
after_word [] = []
after_word (c ∷ cs) = if is_space c then c ∷ cs else after_word cs

-- `text.split(maxsplit=1)` where it gives two parts.
unfoldable pub split_once : List ℕ → Option (List ℕ × List ℕ)
split_once text =
    let rest = drop_spaces (after_word (drop_spaces text)) in
    if is_empty (first_word (drop_spaces text)) || is_empty rest
    then none
    else some (first_word (drop_spaces text), rest)

pub drop_spaces_lem :
    (cs : List ℕ) → (left : List ℕ) × (cs ≡ left ++ drop_spaces cs) × (all is_space left ≡ true)
unfolding drop_spaces
drop_spaces_lem [] = ([], refl, refl)
drop_spaces_lem (c ∷ cs) = elim (Bool-cases (is_space c)) [
  | inl space ↦
      let (left, e, s) = drop_spaces_lem cs in rw space (c ∷ left, ap (c ∷◌) e, rw (space, s))
  | inr word ↦ rw word ([], refl, refl)
]

is_empty→eq : (cs : List ℕ) → is_empty cs ≡ true → cs ≡ []
is_empty→eq [] h = refl
is_empty→eq (c ∷ cs) h = cc

pub both : (a b : Bool) → (a && b) ≡ true → (a ≡ true) × (b ≡ true)
both a b h = ground arith

pub drop_last_spaces_lem :
    (cs : List ℕ)
    → (right : List ℕ) × (cs ≡ drop_last_spaces cs ++ right) × (all is_space right ≡ true)
unfolding drop_last_spaces
drop_last_spaces_lem [] = ([], refl, refl)
drop_last_spaces_lem (c ∷ cs) =
    let (right, e, s) = drop_last_spaces_lem cs in
    elim (Bool-cases (is_space c && is_empty (drop_last_spaces cs))) [
      | inl gone ↦
          let (space, nothing) = both (is_space c) (is_empty (drop_last_spaces cs)) gone in
          rw gone (
            c ∷ right,
            ap (c ∷◌) (e ∙ ap (◌++ right) (is_empty→eq (drop_last_spaces cs) nothing)),
            rw (space, s),
          )
      | inr kept ↦ rw kept (right, ap (c ∷◌) e, s)
    ]

pub first_word_lem : (cs : List ℕ) → cs ≡ first_word cs ++ after_word cs
unfolding first_word after_word
first_word_lem [] = refl
first_word_lem (c ∷ cs) = ground (arith, first_word_lem cs)

pub strip_lem :
    (cs : List ℕ)
    → (left right : List ℕ) × (cs ≡ left ++ (strip cs ++ right))
      × (all is_space left ≡ true)
      × (all is_space right ≡ true)
unfolding strip
strip_lem cs =
    let (left, e, s) = drop_spaces_lem cs in
    let (right, f, t) = drop_last_spaces_lem (drop_spaces cs) in
    (left, right, e ∙ ap (left ++◌) f, s, t)

split_once_parts :
    (text word rest : List ℕ)
    → split_once text ≡ some (word, rest)
    → (first_word (drop_spaces text) ≡ word) × (drop_spaces (after_word (drop_spaces text)) ≡ rest)
unfolding split_once
split_once_parts text word rest h = ground arith

pub split_once_lem :
    (text word rest : List ℕ)
    → split_once text ≡ some (word, rest)
    → (left gap : List ℕ) × (text ≡ left ++ (word ++ (gap ++ rest)))
      × (all is_space left ≡ true)
      × (all is_space gap ≡ true)
split_once_lem text word rest h =
    let (w, r) = split_once_parts text word rest h in
    let (left, e, s) = drop_spaces_lem text in
    let (gap, f, t) = drop_spaces_lem (after_word (drop_spaces text)) in
    (
      left,
      gap,
      e
          ∙ ap (left ++◌)
              (first_word_lem (drop_spaces text) ∙ ap₂ (λ x y. x ++ y) w (f ∙ ap (gap ++◌) r)),
      s,
      t,
    )
