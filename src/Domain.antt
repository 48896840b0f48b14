-- ===== src/Domain.antt =====
-- core/domain: the errors, time, and the two stored entities.
pub mod Values
pub mod Time
pub use Values.{Json, Items, Fields}
use openchronicle_mcp.Base.{
  ℕ, ◌+◌, ◌-◌, ◌*◌, ◌≡◌, refl, Bool, true, false, ◌&&◌, Option, none, some, List, String, arith,
  leb, if◌then◌else◌,
}

-- The exceptions that the modelled code raises, without their messages. `integrity` and
-- `operational` are sqlite3's; the last four are kinds of ProviderError.
pub data Error : Type 0 where
  project_not_found memory_not_found validation value_error integrity operational config : Error
  overflow_error : Error
  revision_unknown revision_changed content_too_long provider_failure other_failure : Error

pub data Result {ℓ} (A : Type ℓ) : Type ℓ where
  ok : A → Result A
  err : Error → Result A

-- datetime: an aware one is its instant, in microseconds of UTC counted from one day before the
-- first instant of year 1, so that the offset of a zone keeps it a natural number.
pub data DateTime : Type 0 where
  naive : DateTime
  aware : ℕ → DateTime

abbrev pub day_us : ℕ
day_us = 86_400_000_000

-- The instants that datetime can hold in UTC: years 1 to 9999.
abbrev pub min_utc : ℕ
min_utc = day_us

abbrev pub max_utc : ℕ
max_utc = 3_652_060 * day_us - 1

unfoldable pub require_utc : DateTime → Result ℕ
require_utc naive = err validation
require_utc (aware t) = if leb min_utc t && leb t max_utc then ok t else err validation

-- MAX_CONTENT_CHARS.
abbrev pub max_content_chars : ℕ
max_content_chars = 100_000

pub record MemoryItem : Type 0 where
  pub id : String
  pub content : String
  pub tags : List String
  pub created_at : DateTime
  pub pinned : Bool
  pub project_id : Option String
  pub source : String
  pub updated_at : Option DateTime

pub record Project : Type 0 where
  pub id : String
  pub name : String
  pub metadata : Json
  pub created_at : DateTime

-- The source of the git-onboard resume point.
abbrev pub watermark_source : String
watermark_source = "git-onboard-watermark"
