-- ===== src/Wire/Sample.antt =====
-- For the tests: numbers and times are written as "1", every text is written as "json", and reading gives
-- a value that is chosen.
use swiftmind_parking_portal.Common.{some, String, refl}
use swiftmind_parking_portal.Fine.Sample.{in_quarters}
use swiftmind_parking_portal.Web.Http.{Json, Js}
use swiftmind_parking_portal.Wire.{Encoder}
use swiftmind_parking_portal.Wire.Transport.{Carries}

abbrev pub encoder : Encoder in_quarters
encoder = record {
  show_int = λ n. "1";
  show_float = λ x. "1";
  show_time = λ t. "2025-01-01T08:00:00Z";
  created_at = λ id. "2025-01-01T08:00:00Z";
}

abbrev pub write : Json → String
write v = "json"

-- The text of a value as an error is the message.
abbrev pub reads : Json → (message : String) → Js
reads v message = record { parse = λ s. some v; text_of = λ u. message; show_status = λ n. "500" }

abbrev pub reads-Carries : (v : Json) (message : String) → Carries (reads v message) write v
reads-Carries v message = record { parses = refl; not_empty = refl }
