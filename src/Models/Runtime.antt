-- ===== src/Models/Runtime.antt =====
-- What lineagetx/models.py asks of Python's `hashlib`, `json`, `datetime` and `urllib.parse`. The
-- functions are a parameter of the model; the checks made on their results are defined here.
use data_lineage_fix_agent.Prelude.{
  ℕ, String, Bool, true, false, ◌&&◌, not, Option, none, some, List, Result, value_error, ◌>>=◌,
  guard, require, ◌==◌,
}

-- A value of a JSON object that the program writes or reads.
pub data Scalar : Type 0 where
  text : String → Scalar
  number : ℕ → Scalar
  flag : Bool → Scalar
  texts : List String → Scalar
  null : Scalar

abbrev pub Mapping : Type 0
Mapping = List (String × Scalar)

-- `parsed.utcoffset()`: None, zero, or another offset.
pub data Zone : Type 0 where
  naive : Zone
  utc : Zone
  elsewhere : Zone

-- The result of `urlsplit`.
pub record UrlParts : Type 0 where
  pub scheme : String
  pub netloc : String
  pub path : String
  pub query : String
  pub fragment : String
  pub username : Option String
  pub password : Option String
  pub hostname : Option String
  pub port : Option ℕ

pub record Runtime : Type 0 where
  -- hashlib.sha256(value.encode("utf-8")).hexdigest()
  pub sha256_hex : String → String
  -- canonical_json(value): compact, with sorted keys
  pub canonical_json : Mapping → String
  -- str(value) of a value that is no text
  pub str : Scalar → String
  -- int(value) of a value that is no number; `none` is its ValueError or TypeError
  pub int : Scalar → Option ℕ
  -- datetime.fromisoformat(value.replace("Z", "+00:00")); `none` is its ValueError
  pub fromisoformat : String → Option Zone
  -- urlsplit(value); `none` is its ValueError
  pub urlsplit : String → Option UrlParts

abbrev is_utc : Zone → Bool
is_utc utc = true
is_utc _ = false

unfoldable pub require_utc_timestamp : Runtime → String → Result (Unit {0})
require_utc_timestamp rt value = do
  parsed ← require (rt.fromisoformat value) value_error
  guard (is_utc parsed) value_error

abbrev pub is_none : Option String → Bool
is_none none = true
is_none (some _) = false

unfoldable pub require_https_url : Runtime → String → Result (Unit {0})
require_https_url rt value = do
  parsed ← require (rt.urlsplit value) value_error
  guard
      (parsed.scheme == "https"
        && not (parsed.netloc == "")
        && is_none parsed.username
        && is_none parsed.password
        && parsed.query == ""
        && parsed.fragment == "")
      value_error

-- `str(value)`
abbrev pub as_text : Runtime → Scalar → String
as_text rt (text s) = s
as_text rt v = rt.str v

-- `int(value)`
abbrev pub as_number : Runtime → Scalar → Option ℕ
as_number rt (number n) = some n
as_number rt v = rt.int v
