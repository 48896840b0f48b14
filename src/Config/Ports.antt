-- ===== src/Config/Ports.antt =====
-- What `resolve_port` and the integer parsers promise.
use openchronicle_mcp.Base.{
  ℕ, ◌+◌, ◌≡◌, refl, ap, sym, ◌∙◌, Bool, true, false, not, ◌&&◌, Option, none, some, List, [], ◌∷◌,
  ◌++◌, String, arith, if◌then◌else◌, codes, strip, is_empty, ℤ, pos, negsuc, All, length,
}
use openchronicle_mcp.Domain.{Json}
use openchronicle_mcp.Domain.Values.{null, bool, int, neg_int, float, str, arr, obj}
use openchronicle_mcp.Config.Env.{
  or_default, is_port, Warning, file_ignored, file_invalid, env_invalid, parse_int, parse_int_env,
  file_fallback, env_text, env_port, resolve_port, resolve,
}

abbrev named : Warning → ℤ
named (file_ignored n) = n
named (file_invalid n) = n
named (env_invalid n) = n

-- The first of some numbers that is a port, or else the last resort.
abbrev first_port : List ℤ → ℤ → ℤ
first_port [] last = last
first_port (n ∷ ns) last = if is_port n then n else first_port ns last

abbrev listed : Option ℤ → List ℤ
listed none = []
listed (some n) = n ∷ []

-- The whole numbers that core.json can give.
abbrev whole : Json → List ℤ
whole (int n) = pos n ∷ []
whole (neg_int n) = negsuc n ∷ []
whole _ = []

abbrev some_port : List ℤ → Bool
some_port [] = false
some_port (n ∷ ns) = is_port n

abbrev is_null : Json → Bool
is_null null = true
is_null _ = false

abbrev one_if : Bool → ℕ
one_if b = if b then 1 else 0

fallback_lem :
    (file : Json) (default : ℤ) → (file_fallback file default).0 ≡ first_port (whole file) default
fallback_lem null default = refl
fallback_lem (int n) default = ground arith
fallback_lem (neg_int n) default = refl
fallback_lem (bool b) default = refl
fallback_lem (float b) default = refl
fallback_lem (str s) default = refl
fallback_lem (arr vs) default = refl
fallback_lem (obj fs) default = refl

bad_lem :
    (file : Json) (default : ℤ)
    → (file_fallback file default).1 ≡ (not (is_null file) && not (some_port (whole file)))
bad_lem null default = refl
bad_lem (int n) default = ground arith
bad_lem (neg_int n) default = refl
bad_lem (bool b) default = refl
bad_lem (float b) default = refl
bad_lem (str s) default = refl
bad_lem (arr vs) default = refl
bad_lem (obj fs) default = refl

first_port-is_port :
    (ns : List ℤ) (last : ℤ) → is_port last ≡ true → is_port (first_port ns last) ≡ true
first_port-is_port [] last h = h
first_port-is_port (n ∷ ns) last h = ground (arith, first_port-is_port ns last h)

first_port-append :
    (o : Option ℤ) (ns : List ℤ) (last : ℤ)
    → first_port (listed o ++ ns) last ≡ first_port (listed o) (first_port ns last)
first_port-append none ns last = refl
first_port-append (some n) ns last = refl

module _ (text : List ℕ) (file : ℤ × Bool) where
  resolve-first_port : (o : Option ℤ) → (resolve text o file).0 ≡ first_port (listed o) file.0
  resolve-first_port none = refl
  resolve-first_port (some n) = ground arith

  resolve_honest :
      (o : Option ℤ) → All (λ w. named w ≡ (resolve text o file).0) (resolve text o file).1
  resolve_honest none = ground arith
  resolve_honest (some n) = ground arith

  resolve_complete :
      (o : Option ℤ)
      → length (resolve text o file).1
        ≡ one_if file.1 + one_if (not (is_empty text) && not (some_port (listed o)))
  resolve_complete none = ground arith
  resolve_complete (some n) = ground arith

module _ (to_int : List ℕ → Option ℤ) where
  -- The numbers that the sources give, the environment first.
  abbrev candidates : Option String → Json → List ℤ
  candidates env file = listed (env_port to_int (env_text env)) ++ whole file

  -- The sources that are set to no port.
  abbrev bad_sources : Option String → Json → ℕ
  bad_sources env file =
      one_if (not (is_null file) && not (some_port (whole file)))
      + one_if (
          not (is_empty (env_text env))
          && not (some_port (listed (env_port to_int (env_text env)))))

  pub record Resolved (env : Option String) (file : Json) (default : ℤ) (r : ℤ × List Warning)
      : Type 0 where
    pub bound : is_port r.0 ≡ true
    pub first : r.0 ≡ first_port (candidates env file) default
    pub honest : All (λ w. named w ≡ r.0) r.1
    pub complete : length r.1 ≡ bad_sources env file

  -- If the default is a port, the result is one: the first of the environment's number, that of
  -- core.json and the default that is a port. There is a warning for each source that is set to no
  -- port, and each names the port used.
  pub resolve_port-Resolved :
      (env : Option String) (file : Json) (default : ℤ)
      → is_port default ≡ true
      → Resolved env file default (resolve_port to_int env file default)
  unfolding resolve_port
  resolve_port-Resolved env file default h =
      let text = env_text env in
      let o = env_port to_int text in
      let used = file_fallback file default in
      let first =
        resolve-first_port text used o
        ∙ ap (first_port (listed o)) (fallback_lem file default)
        ∙ sym (first_port-append o (whole file) default) in
      record {
        bound = rw first (first_port-is_port (candidates env file) default h);
        first = first;
        honest = resolve_honest text used o;
        complete = rw (sym (bad_lem file default)) (resolve_complete text used o);
      }

  -- On a value of the environment parse_int_env is parse_int, if int("") raises ValueError.
  pub parse_int_env-parse_int :
      to_int [] ≡ none
      → (raw : String) (default : ℤ)
      → parse_int_env to_int (some raw) default ≡ parse_int to_int (str raw) default
  unfolding parse_int parse_int_env
  parse_int_env-parse_int h raw default = go (strip (codes raw))
    where
      go :
          (text : List ℕ)
          → (if is_empty text then default else or_default (to_int text) default)
            ≡ or_default (to_int text) default
      go [] = rw h refl
      go (c ∷ cs) = refl
