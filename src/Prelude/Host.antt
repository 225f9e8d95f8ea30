-- ===== src/Prelude/Host.antt =====
-- What the JavaScript host supplies and the source only calls. `to_lower_case` is the Unicode case
-- table behind `toLowerCase`; `date_parse` is `Date.parse` in milliseconds, `none` for `NaN`;
-- `parse_url text base` is `new URL(text, base)`, `none` where the constructor throws.
use mathlib.Core.Option.{Option}
use urwhaturead.Prelude.Strings.{Text}
use urwhaturead.Prelude.Int.{ℤ}

-- The parts of a `URL` that the source reads; `href` is also its `toString()`.
pub record Url : Type 0 where
  pub protocol : Text
  pub hostname : Text
  pub pathname : Text
  pub href : Text

pub record Host : Type 0 where
  pub to_lower_case : Text → Text
  pub date_parse : Text → Option ℤ
  pub parse_url : Text → Option Text → Option Url
