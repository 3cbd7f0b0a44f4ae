-- ===== src/Platform.antt =====
-- What the program takes from outside its own sources: binary64 floats, SHA-256 and
-- `datetime`. Every definition that uses one of them takes a `Platform`.
pub mod Laws
pub mod Fixed
use post_training_rsi_pipeli.Prelude.{String, Bool, Option, ℕ, ℤ}

pub record Platform : Type 1 where
  -- Python's `float`: NaN and the infinities are values of it
  pub Float : Type 0
  pub zero_float : Float
  pub one_float : Float
  -- the literal 1e-12
  pub tiny : Float
  -- a < b, false if one is NaN
  pub less : Float → Float → Bool
  pub add : Float → Float → Float
  pub sub : Float → Float → Float
  -- `round(a, 8)`
  pub round_8 : Float → Float
  -- `math.isclose(a, b, rel_tol=0.0, abs_tol=1e-12)`
  pub is_close : Float → Float → Bool
  -- `float(n)`; `none` is its OverflowError
  pub of_int : ℤ → Option Float
  -- `math.isfinite`
  pub is_finite : Float → Bool
  -- `hashlib.sha256(s.encode("utf-8")).hexdigest()`
  pub sha256 : String → String
  pub Datetime : Type 0
  -- `datetime.fromisoformat`; `none` is its ValueError
  pub fromisoformat : String → Option Datetime
  -- `parsed.tzinfo is not None and parsed.utcoffset() is not None`
  pub has_offset : Datetime → Bool
  -- `parsed.astimezone(timezone.utc).isoformat()`; `none` is its OverflowError, near the years 1 and
  -- 9999
  pub isoformat_utc : Datetime → Option String
  -- decimal text of an `int`, as an f-string writes it
  pub format_int : ℕ → String
