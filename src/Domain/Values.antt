-- ===== src/Domain/Values.antt =====
-- Values that `json.loads` returns.
use openchronicle_mcp.Base.{ℕ, Bool, Option, none, some, String, str_eq, if◌then◌else◌}

mutual
  -- A float is the bit pattern of its double; `neg_int n` is -(n + 1).
  pub data Json : Type 0 where
    null : Json
    bool : Bool → Json
    int : ℕ → Json
    neg_int : ℕ → Json
    float : ℕ → Json
    str : String → Json
    arr : Items → Json
    obj : Fields → Json

  pub data Items : Type 0 where
    nil : Items
    cons : Json → Items → Items

  pub data Fields : Type 0 where
    end : Fields
    field : String → Json → Fields → Fields

-- `row.get(key)`; a dict holds a key once.
abbrev pub get : String → Fields → Option Json
get k end = none
get k (field j v fs) = if str_eq j k then some v else get k fs
