-- ===== src/Git/Groups.antt =====
-- The passes of `cluster_commits` on groups: which commits they hold and how many groups there are.
use openchronicle_mcp.Base.{
  ℕ, zero, suc, ◌+◌, ◌≤◌, ◌<◌, ◌≡◌, refl, ap, sym, false, List, [], ◌∷◌, ◌++◌, ◌==◌, length, arith,
  All, append_assoc, length-append, Perm,
}
use mathlib.Core.List.{perm_append_comm}
use mathlib.Core.List.Perm
use openchronicle_mcp.Git.Commits.{GitCommit}
use openchronicle_mcp.Git.Cluster.{Groups, time_groups, merge_overlapping, nth, pop, extend}

-- All commits of the groups, in order.
abbrev pub concat : Groups → List GitCommit
concat [] = []
concat (g ∷ gs) = g ++ concat gs

abbrev pub IsNonempty : List GitCommit → Type 0
IsNonempty g = 1 ≤ length g

pub time_groups-concat :
    (window : ℕ) (group : List GitCommit) (prev : GitCommit) (cs : List GitCommit)
    → concat (time_groups window group prev cs) ≡ group ++ cs
unfolding time_groups
time_groups-concat window group prev [] = refl
time_groups-concat window group prev (c ∷ cs) = ground (
  arith,
  time_groups-concat window (c ∷ []) c cs,
  time_groups-concat window (group ++ c ∷ []) c cs,
  append_assoc group (c ∷ []) cs,
)

pub time_groups-IsNonempty :
    (window : ℕ) (group : List GitCommit) (prev : GitCommit) (cs : List GitCommit)
    → IsNonempty group
    → All IsNonempty (time_groups window group prev cs)
unfolding time_groups
time_groups-IsNonempty window group prev [] h = (h, tt)
time_groups-IsNonempty window group prev (c ∷ cs) h = ground (
  arith,
  time_groups-IsNonempty window (c ∷ []) c cs,
  time_groups-IsNonempty window (group ++ c ∷ []) c cs,
  length-append group (c ∷ []),
)

pub merge_overlapping-concat :
    (last : List GitCommit) (gs : Groups) → concat (merge_overlapping last gs) ≡ last ++ concat gs
unfolding merge_overlapping
merge_overlapping-concat last [] = refl
merge_overlapping-concat last (g ∷ gs) = ground (
  arith,
  merge_overlapping-concat g gs,
  merge_overlapping-concat (last ++ g) gs,
  append_assoc last g (concat gs),
)

pub merge_overlapping-IsNonempty :
    (last : List GitCommit) (gs : Groups)
    → IsNonempty last
    → All IsNonempty gs
    → All IsNonempty (merge_overlapping last gs)
unfolding merge_overlapping
merge_overlapping-IsNonempty last [] h a = (h, tt)
merge_overlapping-IsNonempty last (g ∷ gs) h a = ground (
  arith,
  merge_overlapping-IsNonempty g gs a.0 a.1,
  merge_overlapping-IsNonempty (last ++ g) gs,
  length-append last g,
)

-- Two blocks at the front change places.
swap_blocks : (xs ys zs : List GitCommit) → Perm (xs ++ (ys ++ zs)) (ys ++ (xs ++ zs))
swap_blocks xs ys zs =
    rw (sym (append_assoc xs ys zs), sym (append_assoc ys xs zs))
      (Perm.append_right zs (perm_append_comm xs ys))

-- Popping a group and extending another.
pub extend-length : (k : ℕ) (x : List GitCommit) (gs : Groups) → length (extend k x gs) ≡ length gs
extend-length k x [] = refl
extend-length zero x (g ∷ gs) = refl
extend-length (suc k) x (g ∷ gs) = ap suc (extend-length k x gs)

pub pop-length : (k : ℕ) (gs : Groups) → k < length gs → length (pop k gs) + 1 ≡ length gs
pop-length k [] h = absurd (omega arith)
pop-length zero (g ∷ gs) h = omega arith
pop-length (suc k) (g ∷ gs) h = omega (arith, pop-length k gs)

pub nth-extend :
    (j k : ℕ) (x : List GitCommit) (gs : Groups)
    → (j == k) ≡ false
    → nth k (extend j x gs) ≡ nth k gs
nth-extend j k x [] h = refl
nth-extend zero zero x (g ∷ gs) h = absurd cc
nth-extend zero (suc k) x (g ∷ gs) h = refl
nth-extend (suc j) zero x (g ∷ gs) h = refl
nth-extend (suc j) (suc k) x (g ∷ gs) h = nth-extend j k x gs (ground arith)

pub pop-Perm :
    (k : ℕ) (gs : Groups) → k < length gs → Perm (concat gs) (nth k gs ++ concat (pop k gs))
pop-Perm k [] h = absurd (omega arith)
pop-Perm zero (g ∷ gs) h = Perm.refl _
pop-Perm (suc k) (g ∷ gs) h =
    Perm.trans (Perm.append_left g (pop-Perm k gs (omega arith)))
      (swap_blocks g (nth k gs) (concat (pop k gs)))

pub extend-Perm :
    (k : ℕ) (x : List GitCommit) (gs : Groups)
    → k < length gs
    → Perm (concat (extend k x gs)) (x ++ concat gs)
extend-Perm k x [] h = absurd (omega arith)
extend-Perm zero x (g ∷ gs) h =
    rw (sym (append_assoc x g (concat gs))) (Perm.append_right (concat gs) (perm_append_comm g x))
extend-Perm (suc k) x (g ∷ gs) h =
    Perm.trans (Perm.append_left g (extend-Perm k x gs (omega arith))) (swap_blocks g x (concat gs))
