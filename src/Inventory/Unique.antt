-- ===== src/Inventory/Unique.antt =====
-- What a loaded inventory and a resolved target are (runner/runner/trusted_inventory.py, `_load_hosts`
-- and `resolve_unique_target`).
use aiops_runner.Prelude.{
  String, true, false, List, [], ◌∷◌, ◌++◌, ◌≡◌, ◌↔◌, refl, ap, All, one_of, ok, err, Bool-cases,
  inl, inr, arith,
}
use aiops_runner.Inventory.{target_not_managed, Host, matching, only_match, resolve_unique_target}

-- No host of the list has the target.
abbrev pub Lacks : String → List Host → Type 0
Lacks target hosts = All (λ h. one_of target h.targets ≡ false) hosts

-- Exactly one host of the list has the target.
pub record IsOnly (target : String) (hosts : List Host) (h : Host) : Type 0 where
  pub before : List Host
  pub after : List Host
  pub split : hosts ≡ before ++ (h ∷ after)
  pub listed : one_of target h.targets ≡ true
  pub before_lacks : Lacks target before
  pub after_lacks : Lacks target after

matching-nil :
    (target : String) (hosts : List Host) → matching target hosts ≡ [] → Lacks target hosts
unfolding matching
matching-nil target [] e = tt
matching-nil target (h ∷ rest) e = elim (Bool-cases (one_of target h.targets)) [
  | inl has ↦ let bad = rw has at e in absurd (ground (arith, bad))
  | inr lacks ↦ (lacks, matching-nil target rest (rw lacks at e))
]

Lacks-matching :
    (target : String) (hosts : List Host) → Lacks target hosts → matching target hosts ≡ []
unfolding matching
Lacks-matching target [] l = refl
Lacks-matching target (h ∷ rest) l = rw (l.0) (Lacks-matching target rest l.1)

matching-one :
    (target : String) (hosts : List Host) (h : Host)
    → matching target hosts ≡ h ∷ []
    → IsOnly target hosts h
unfolding matching
matching-one target [] h e = cc
matching-one target (g ∷ rest) h e = elim (Bool-cases (one_of target g.targets)) [
  | inl has ↦
      let found = rw has at e in
      let same : g ≡ h = cc in
      record {
        before = [];
        after = rest;
        split = (rw (same) refl);
        listed = (rw (← same) has);
        before_lacks = tt;
        after_lacks = matching-nil target rest (cc);
      }
  | inr lacks ↦
      let only = matching-one target rest h (rw lacks at e) in
      record {
        before = g ∷ only.before;
        after = only.after;
        split = ap (λ l. g ∷ l) only.split;
        listed = only.listed;
        before_lacks = (lacks, only.before_lacks);
        after_lacks = only.after_lacks;
      }
]

one-matching :
    (target : String) (before after : List Host) (h : Host)
    → Lacks target before
    → one_of target h.targets ≡ true
    → Lacks target after
    → matching target (before ++ (h ∷ after)) ≡ h ∷ []
unfolding matching
one-matching target [] after h l has la = rw (has, Lacks-matching target after la) refl
one-matching target (g ∷ before) after h l has la =
    rw (l.0) (one-matching target before after h l.1 has la)

only_match-one : (ms : List Host) (h : Host) → only_match ms ≡ ok h → ms ≡ h ∷ []
unfolding only_match
only_match-one [] h e = cc
only_match-one (g ∷ []) h e = let same : g ≡ h = cc in rw (same) refl
only_match-one (g ∷ k ∷ rest) h e = cc

only_match-none : (ms : List Host) → only_match ms ≡ err target_not_managed → ms ≡ []
unfolding only_match
only_match-none [] e = refl
only_match-none (g ∷ []) e = cc
only_match-none (g ∷ k ∷ rest) e = absurd (ground (arith, e))

-- A target resolves to a host exactly when that host and no other lists it; it is not managed exactly
-- when no host lists it.
pub resolve_unique_target_iff :
    (target : String) (hosts : List Host)
    → ((h : Host) → (resolve_unique_target target hosts ≡ ok h) ↔ IsOnly target hosts h)
      × ((resolve_unique_target target hosts ≡ err target_not_managed) ↔ Lacks target hosts)
unfolding resolve_unique_target only_match
resolve_unique_target_iff target hosts = (
  (λ h. (
    (λ e. matching-one target hosts h (only_match-one (matching target hosts) h e)),
    λ only.
        rw
          (
            only.split,
            one-matching target only.before only.after h only.before_lacks only.listed
                only.after_lacks,
          )
          refl,
  )),
  (
    (λ e. matching-nil target hosts (only_match-none (matching target hosts) e)),
    λ l. rw (Lacks-matching target hosts l) refl,
  ),
)
