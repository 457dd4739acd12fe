-- ===== src/Web/Host.antt =====
-- What web/src takes from the browser and from JavaScript: `number`, `Intl`, `Date` and the text
-- methods of `String.prototype`.
use swiftmind_parking_portal.Common.{ℕ, String, Option}

pub record Host : Type 1 where
  pub Num : Type 0
  -- `Number(text)`
  pub number_of : String → Num
  -- a number in a template literal or in JSX
  pub show_num : Num → String
  -- an integer literal
  pub of_ℕ : ℕ → Num
  -- `new Intl.NumberFormat(locale, { style: "currency", currency, maximumFractionDigits })`
  pub currency_format : (locale currency : String) (fraction_digits : ℕ) → Num → String
  -- `new Date(iso).toLocaleString(locale, { dateStyle, timeStyle, timeZone })`; no zone is local
  pub locale_string : (iso locale date_style time_style : String) → Option String → String
  -- `new Date().toISOString()`
  pub now_iso : String
  -- `trim` and `toUpperCase`
  pub trim : String → String
  pub to_upper : String → String
  -- `s.slice(0, n)`
  pub prefix : ℕ → String → String
  -- `s.split(" ")[0]`
  pub first_word : String → String
