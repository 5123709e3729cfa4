-- ===== src/Kubernetes/Ownership/Exclusion.antt =====
-- What is left of the assets when the stopped workloads are taken out (runner/runner/kubernetes.py,
-- `_exclude_scaled_to_zero_assets`).
use mathlib.Core.List.{Memᴰ}
use aiops_runner.Prelude.{
  suc, String, false, some, List, [], ◌∷◌, ◌≡◌, ◌↔◌, refl, length, one_of, Bool-cases, inl, inr,
  arith,
}
use aiops_runner.Kubernetes.Ownership.{
  Asset, stopped_uids, scaled_to_zero_excluded_uids, without, exclude_scaled_to_zero_assets,
}
use aiops_runner.Kubernetes.Ownership.Closure.{Below, close-Below}

without-Mem_to :
    (excluded : List String) (assets : List Asset) (a : Asset)
    → Memᴰ a (without excluded assets)
    → Memᴰ a assets × (one_of a.uid excluded ≡ false)
unfolding without
without-Mem_to excluded [] a m = elim m [ ]
without-Mem_to excluded (b ∷ rest) a m = elim (Bool-cases (one_of b.uid excluded)) [
  | inl out ↦
      let (inside, test) = without-Mem_to excluded rest a (rw out at m) in (Memᴰ.tail inside, test)
  | inr stays ↦ elim (rw stays at m) [
    | Memᴰ.head e ↦ (Memᴰ.head e, (rw (e) stays))
    | Memᴰ.tail later ↦
        let (inside, test) = without-Mem_to excluded rest a later in (Memᴰ.tail inside, test)
  ]
]

without-Mem_from :
    (excluded : List String) (assets : List Asset) (a : Asset)
    → Memᴰ a assets
    → one_of a.uid excluded ≡ false
    → Memᴰ a (without excluded assets)
unfolding without
without-Mem_from excluded [] a m h = elim m [ ]
without-Mem_from excluded (b ∷ rest) a (Memᴰ.head e) h =
    let stays : one_of b.uid excluded ≡ false = rw e at h in rw (stays) (Memᴰ.head e)
without-Mem_from excluded (b ∷ rest) a (Memᴰ.tail m) h =
    let later = without-Mem_from excluded rest a m h in
    elim (Bool-cases (one_of b.uid excluded)) [
      | inl out ↦ rw (out) later
      | inr stays ↦ rw (stays) (Memᴰ.tail later)
    ]

-- Taking the stopped workloads out ends, within one round more than there are assets, and keeps
-- exactly the assets that are neither a stopped workload nor owned by one, however indirectly.
pub exclude_scaled_to_zero_assets_iff :
    (assets : List Asset)
    → (kept : List Asset) × (exclude_scaled_to_zero_assets (suc (length assets)) assets ≡ some kept)
      × ((a : Asset) → Memᴰ a kept ↔ (Memᴰ a assets × ¬ Below assets (stopped_uids assets) a.uid))
unfolding exclude_scaled_to_zero_assets scaled_to_zero_excluded_uids
exclude_scaled_to_zero_assets_iff assets =
    let (r, ended, below) = close-Below assets (stopped_uids assets) in
    (
      without r assets,
      (rw (exclude_scaled_to_zero_assets, ended) refl),
      λ a. (
        (λ m.
            let (inside, test) = without-Mem_to r assets a m in
            (inside, λ owned. absurd (ground (arith, test, (below a.uid).1 owned)))),
        λ (inside, free). without-Mem_from r assets a inside (elim (Bool-cases (one_of a.uid r)) [
          | inl out ↦ absurd (free ((below a.uid).0 out))
          | inr test ↦ test
        ]),
      ),
    )
