-- ===== src/Git/Cap.antt =====
-- The cap loop of `cluster_commits`.
use openchronicle_mcp.Base.{
  ℕ, zero, suc, ◌+◌, ◌≤◌, ◌<◌, ◌≡◌, refl, false, Option, some, List, [], ◌∷◌, ◌++◌, ◌==◌, length,
  arith, All, Perm, length-append, min,
}
use mathlib.Core.Path.{subst}
use native.Mathlib.Decide.{dec_lt}
use mathlib.Core.List.{perm-append_left_iff}
use mathlib.Core.List.Perm
use openchronicle_mcp.Git.Commits.{GitCommit}
use openchronicle_mcp.Git.Cluster.{
  Groups, smallest_from, smallest_idx, nth, pop, extend, merge_into, merge_smallest, cap_clusters,
}
use openchronicle_mcp.Git.Groups.{
  concat, IsNonempty, extend-length, pop-length, nth-extend, pop-Perm, extend-Perm,
}

smallest_from_bound :
    (best size i : ℕ) (gs : Groups) → best < i → smallest_from best size i gs < i + length gs
unfolding smallest_from
smallest_from_bound best size i [] h = omega arith
smallest_from_bound best size i (g ∷ gs) h =
    ground
      (arith, smallest_from_bound best size (i + 1) gs, smallest_from_bound i (length g) (i + 1) gs)

smallest_idx_bound : (gs : Groups) → 1 ≤ length gs → smallest_idx gs < length gs
unfolding smallest_idx
smallest_idx_bound [] h = absurd (omega arith)
smallest_idx_bound (g ∷ gs) h = omega (arith, smallest_from_bound 0 (length g) 1 gs)

merge_into_bound :
    (k n : ℕ) → 2 ≤ n → k < n → (merge_into k n < n) × ((merge_into k n == k) ≡ false)
merge_into_bound k n h l = (ground arith, ground arith)

-- What a group becomes by an extension or a loss is not empty.
extend-IsNonempty :
    (k : ℕ) (x : List GitCommit) (gs : Groups) → All IsNonempty gs → All IsNonempty (extend k x gs)
extend-IsNonempty k x [] a = tt
extend-IsNonempty zero x (g ∷ gs) a = (omega (arith, length-append g x, a.0), a.1)
extend-IsNonempty (suc k) x (g ∷ gs) a = (a.0, extend-IsNonempty k x gs a.1)

pop-IsNonempty : (k : ℕ) (gs : Groups) → All IsNonempty gs → All IsNonempty (pop k gs)
pop-IsNonempty k [] a = tt
pop-IsNonempty zero (g ∷ gs) a = a.1
pop-IsNonempty (suc k) (g ∷ gs) a = (a.0, pop-IsNonempty k gs a.1)

module _ (merged : Groups) (two : 2 ≤ length merged) where
  abbrev smallest : ℕ
  smallest = smallest_idx merged

  abbrev target : ℕ
  target = merge_into smallest (length merged)

  target_bound : (target < length merged) × ((target == smallest) ≡ false)
  target_bound =
      merge_into_bound smallest (length merged) two (smallest_idx_bound merged (omega arith))

  merge_smallest_lem :
      merge_smallest merged ≡ pop smallest (extend target (nth smallest merged) merged)
  unfolding merge_smallest
  merge_smallest_lem = rw (target_bound.1) refl

  length-merge_smallest : length (merge_smallest merged) + 1 ≡ length merged
  length-merge_smallest = rw merge_smallest_lem (
      omega (
        arith,
        extend-length target (nth smallest merged) merged,
        smallest_idx_bound merged (omega arith),
        pop-length smallest (extend target (nth smallest merged) merged),
      ))

  merge_smallest-Perm : Perm (concat (merge_smallest merged)) (concat merged)
  merge_smallest-Perm =
      let x = nth smallest merged in
      let gs = extend target x merged in
      let in_range : smallest < length gs =
        omega (arith, extend-length target x merged, smallest_idx_bound merged (omega arith)) in
      let popped : Perm (concat gs) (x ++ concat (pop smallest gs)) =
        subst (λ y. Perm (concat gs) (y ++ concat (pop smallest gs)))
          (nth-extend target smallest x merged target_bound.1) (pop-Perm smallest gs in_range) in
      rw merge_smallest_lem (
        (perm-append_left_iff x).0
          (Perm.trans (Perm.symm popped) (extend-Perm target x merged target_bound.0)))

  merge_smallest-IsNonempty : All IsNonempty merged → All IsNonempty (merge_smallest merged)
  merge_smallest-IsNonempty a = rw merge_smallest_lem (
      pop-IsNonempty smallest (extend target (nth smallest merged) merged)
        (extend-IsNonempty target (nth smallest merged) merged a))

-- What the cap loop makes of `merged`.
pub record Capped (limit : ℕ) (merged : Groups) (r : Option Groups) : Type 0 where
  pub groups : Groups
  pub returned : r ≡ some groups
  pub same_commits : Perm (concat groups) (concat merged)
  pub number : length groups ≡ min limit (length merged)
  pub nonempty : All IsNonempty merged → All IsNonempty groups

done : (limit : ℕ) (merged : Groups) → length merged ≤ limit → Capped limit merged (some merged)
done limit merged h = record {
  groups = merged;
  returned = refl;
  same_commits = Perm.refl _;
  number = omega arith;
  nonempty = λ a. a;
}

-- One turn fewer, from a list with one group fewer.
later :
    (limit : ℕ) (merged : Groups) (r : Option Groups)
    → 1 ≤ limit
    → limit < length merged
    → Capped limit (merge_smallest merged) r
    → Capped limit merged r
later limit merged r h more c =
    let two : 2 ≤ length merged = omega arith in
    record {
      groups = c.groups;
      returned = c.returned;
      same_commits = Perm.trans c.same_commits (merge_smallest-Perm merged two);
      number = omega (arith, c.number, length-merge_smallest merged two);
      nonempty = λ a. c.nonempty (merge_smallest-IsNonempty merged two a);
    }

cap_clusters-more :
    (fuel limit : ℕ) (merged : Groups)
    → limit < length merged
    → cap_clusters (suc fuel) limit merged ≡ cap_clusters fuel limit (merge_smallest merged)
unfolding cap_clusters
cap_clusters-more fuel limit merged h = ground arith

cap_clusters-few :
    (fuel limit : ℕ) (merged : Groups)
    → length merged ≤ limit
    → cap_clusters fuel limit merged ≡ some merged
unfolding cap_clusters
cap_clusters-few zero limit merged h = ground arith
cap_clusters-few (suc fuel) limit merged h = ground arith

pub cap_clusters-Capped :
    (fuel limit : ℕ) (merged : Groups)
    → 1 ≤ limit
    → length merged ≤ fuel
    → Capped limit merged (cap_clusters fuel limit merged)
cap_clusters-Capped zero limit merged h f =
    rw (cap_clusters-few zero limit merged (omega arith)) (done limit merged (omega arith))
cap_clusters-Capped (suc fuel) limit merged h f = elim (dec_lt limit (length merged)) [
  | yes more ↦ rw (cap_clusters-more fuel limit merged more) (
      later limit merged _ h more (
        cap_clusters-Capped fuel limit (merge_smallest merged) h
          (omega (arith, length-merge_smallest merged (omega arith)))))
  | no few ↦
      rw (cap_clusters-few (suc fuel) limit merged (omega arith)) (done limit merged (omega arith))
]
