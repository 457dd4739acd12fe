-- ===== src/Web/Sample.antt =====
-- A browser for the tests: numbers are natural ones, every number is shown as "1", and texts stay as
-- they are.
use swiftmind_parking_portal.Common.{ℕ}
use swiftmind_parking_portal.Web.Host.{Host}

abbrev pub sample_host : Host
sample_host = record {
  Num = ℕ;
  number_of = λ text. 1;
  show_num = λ n. "1";
  of_ℕ = λ n. n;
  currency_format = λ locale currency digits n. "Rp 1";
  locale_string = λ iso locale date_style time_style zone. iso;
  now_iso = "2025-01-01T08:00:00.000Z";
  trim = λ s. s;
  to_upper = λ s. s;
  prefix = λ n s. s;
  first_word = λ s. s;
}
