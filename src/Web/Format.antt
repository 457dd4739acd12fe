-- ===== src/Web/Format.antt =====
-- web/src/lib/format.ts.
use swiftmind_parking_portal.Common.{String, none, some, ◌+t◌}
use swiftmind_parking_portal.Web.Host.{Host}

module _ (host : Host) where
  open host use {Num, currency_format, locale_string}

  unfoldable pub format_idr : Num → String
  format_idr amount = currency_format "id-ID" "IDR" 0 amount

  unfoldable pub format_date_time : String → String
  format_date_time iso = locale_string iso "en-GB" "medium" "short" none

  unfoldable pub format_date_time_utc : String → String
  format_date_time_utc iso = locale_string iso "en-GB" "medium" "short" (some "UTC") +t " UTC"
