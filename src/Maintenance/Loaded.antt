-- ===== src/Maintenance/Loaded.antt =====
-- What `load_jobs` gives.
use openchronicle_mcp.Base.{
  ℕ, ◌<◌, ◌≡◌, refl, ap, Option, none, some, List, [], ◌∷◌, map, String, arith, All,
}
use openchronicle_mcp.Domain.{Result, ok, err, overflow_error, Json, Items, Fields}
use openchronicle_mcp.Domain.Values.{null, bool, int, neg_int, float, str, arr, obj}
use openchronicle_mcp.Maintenance.Jobs.{JobState}
use openchronicle_mcp.Maintenance.Config.{
  Default, default_jobs, Converted, number, refused, overflow, IntOf, parsed, or_hour, checked,
  interval_of, enabled_of, with_interval, entry_of, load_from, load_jobs, config_jobs,
}

abbrev pub job_name : JobState → String
job_name j = j.name

abbrev default_name : Default → String
default_name d = d.name

abbrev pub Positive : JobState → Type 0
Positive j = 0 < j.interval_seconds

pub data Listed (d : Default) : List Default → Type 0 where
  front : (ds : List Default) → Listed d (d ∷ ds)
  behind : (e : Default) (ds : List Default) → Listed d ds → Listed d (e ∷ ds)

-- An interval that core.json gives for one of some jobs, and that overflows.
pub record Overflows (f : IntOf) (entries : Items) (ds : List Default) : Type 0 where
  pub job : Default
  pub listed : Listed job ds
  pub bits : ℕ
  pub given : entry_of entries job "interval_seconds" ≡ some (float bits)
  pub infinite : f.of_float bits ≡ overflow

-- Either every job is there, or an interval overflows and loading raises.
pub data Loaded (f : IntOf) (entries : Items) (ds : List Default) (r : Result (List JobState))
    : Type 0 where
  complete :
      (states : List JobState)
      → r ≡ ok states
      → map job_name states ≡ map default_name ds
      → All Positive states
      → Loaded f entries ds r
  overflowed : Overflows f entries ds → r ≡ err overflow_error → Loaded f entries ds r

-- What an interval comes to.
data Checked (f : IntOf) (d : Default) (o : Option Json) : Type 0 where
  positive : (n : ℕ) → interval_of f d o ≡ ok n → 0 < n → Checked f d o
  infinite_float :
      (b : ℕ)
      → o ≡ some (float b)
      → f.of_float b ≡ overflow
      → interval_of f d o ≡ err overflow_error
      → Checked f d o

module _ (f : IntOf) (d : Default) where
  finite :
      (o : Option Json) (c : Converted)
      → interval_of f d o ≡ checked c
      → (c ≡ overflow → (b : ℕ) × (o ≡ some (float b)) × (f.of_float b ≡ overflow))
      → Checked f d o
  finite o (number n) e h = positive (or_hour n) e (ground arith)
  finite o refused e h = positive 3_600 e (omega arith)
  finite o overflow e h = let (b, given, bad) = h refl in infinite_float b given bad e

  interval_of-Checked : (o : Option Json) → Checked f d o
  interval_of-Checked none = finite none (number d.interval_seconds) refl (λ h. cc)
  interval_of-Checked (some null) = finite _ refused refl (λ h. cc)
  interval_of-Checked (some (bool b)) = finite _ refused refl (λ h. cc)
  interval_of-Checked (some (int n)) = finite _ (number n) refl (λ h. cc)
  interval_of-Checked (some (neg_int n)) = finite _ (number 0) refl (λ h. cc)
  interval_of-Checked (some (float b)) = finite _ (f.of_float b) refl (λ h. (b, refl, h))
  interval_of-Checked (some (str s)) = go (f.of_text s) refl
    where
      go : (o : Option ℕ) → f.of_text s ≡ o → Checked f d (some (str s))
      go none e = finite _ refused (ap (λ p. checked (parsed p)) e) (λ h. cc)
      go (some n) e = finite _ (number n) (ap (λ p. checked (parsed p)) e) (λ h. cc)
  interval_of-Checked (some (arr vs)) = finite _ refused refl (λ h. cc)
  interval_of-Checked (some (obj fs)) = finite _ refused refl (λ h. cc)

module _ (f : IntOf) (entries : Items) where
  later-Overflows :
      (d : Default) (ds : List Default) → Overflows f entries ds → Overflows f entries (d ∷ ds)
  later-Overflows d ds o = record {
    job = o.job;
    listed = behind d ds o.listed;
    bits = o.bits;
    given = o.given;
    infinite = o.infinite;
  }

  load_from-Loaded : (ds : List Default) → Loaded f entries ds (load_from f entries ds)
  unfolding load_from
  load_from-Loaded [] = complete [] refl refl tt
  load_from-Loaded (d ∷ ds) =
      go (interval_of-Checked f d (entry_of entries d "interval_seconds")) (load_from-Loaded ds)
    where
      go :
          Checked f d (entry_of entries d "interval_seconds")
          → Loaded f entries ds (load_from f entries ds)
          → Loaded f entries (d ∷ ds) (load_from f entries (d ∷ ds))
      go (infinite_float b given bad e) rest =
          overflowed
            (record { job = d; listed = front ds; bits = b; given = given; infinite = bad })
            (rw (load_from, e) refl)
      go (positive n e h) (complete states r names_kept all_positive) =
          complete (with_interval d (enabled_of d (entry_of entries d "enabled")) n ∷ states)
            (rw (load_from, e) (rw r refl)) (ap (λ ns. d.name ∷ ns) names_kept) (h, all_positive)
      go (positive n e h) (overflowed o r) =
          overflowed (later-Overflows d ds o) (rw (load_from, e) (rw r refl))

-- load_jobs either gives every default job, in the defaults' order and no other, none with an
-- interval of 0, which would make it due at every tick, or it raises OverflowError, and then core.json
-- gives a default job an interval that is a float whose `int` overflows.
pub load_jobs-Loaded :
    (f : IntOf) (config : Option Fields)
    → Loaded f (config_jobs config) default_jobs (load_jobs f config)
unfolding load_jobs
load_jobs-Loaded f config = load_from-Loaded f (config_jobs config) default_jobs
