-- ===== src/Gateway/Routes.antt =====
-- internal/gateway/router.go, `Router`: the routes, with what each asks of the caller.
use swiftmind_parking_portal.Common.{List, [], ◌∷◌}
use swiftmind_parking_portal.Domain.{role_officer, role_member}
use swiftmind_parking_portal.Gateway.Data.{
  rules, violations, payments, notifications, health, login, logout, me, proxy, public, signed_in,
  only, Segment, word, param, Route,
}

abbrev api : List Segment → List Segment
api ss = word "api" ∷ ss

-- The routes of `Router`. The last five are those of the mount points once more, with the slash that
-- `chi` lets a path of a mounted router end in.
unfoldable pub routes : List Route
routes =
    record { method = "GET"; pattern = word "health" ∷ []; gate = public; target = health }
    ∷ record {
      method = "POST";
      pattern = api (word "auth" ∷ word "login" ∷ []);
      gate = public;
      target = login;
    }
    ∷ record {
      method = "POST";
      pattern = api (word "auth" ∷ word "logout" ∷ []);
      gate = public;
      target = logout;
    }
    ∷ record {
      method = "GET";
      pattern = api (word "auth" ∷ word "me" ∷ []);
      gate = signed_in;
      target = me;
    }
    ∷ record {
      method = "GET";
      pattern = api (word "rules" ∷ word "active" ∷ []);
      gate = signed_in;
      target = proxy rules;
    }
    ∷ record {
      method = "GET";
      pattern = api (word "rules" ∷ []);
      gate = signed_in;
      target = proxy rules;
    }
    ∷ record {
      method = "POST";
      pattern = api (word "rules" ∷ []);
      gate = only role_officer;
      target = proxy rules;
    }
    ∷ record {
      method = "GET";
      pattern = api (word "violations" ∷ []);
      gate = signed_in;
      target = proxy violations;
    }
    ∷ record {
      method = "GET";
      pattern = api (word "violations" ∷ param ∷ []);
      gate = signed_in;
      target = proxy violations;
    }
    ∷ record {
      method = "GET";
      pattern = api (word "violations" ∷ param ∷ word "photo" ∷ []);
      gate = signed_in;
      target = proxy violations;
    }
    ∷ record {
      method = "POST";
      pattern = api (word "violations" ∷ []);
      gate = only role_officer;
      target = proxy violations;
    }
    ∷ record {
      method = "GET";
      pattern = api (word "invoices" ∷ []);
      gate = signed_in;
      target = proxy payments;
    }
    ∷ record {
      method = "POST";
      pattern = api (word "invoices" ∷ param ∷ word "pay" ∷ []);
      gate = only role_member;
      target = proxy payments;
    }
    ∷ record {
      method = "GET";
      pattern = api (word "notifications" ∷ []);
      gate = signed_in;
      target = proxy notifications;
    }
    ∷ record {
      method = "GET";
      pattern = api (word "rules" ∷ word "" ∷ []);
      gate = signed_in;
      target = proxy rules;
    }
    ∷ record {
      method = "POST";
      pattern = api (word "rules" ∷ word "" ∷ []);
      gate = only role_officer;
      target = proxy rules;
    }
    ∷ record {
      method = "GET";
      pattern = api (word "violations" ∷ word "" ∷ []);
      gate = signed_in;
      target = proxy violations;
    }
    ∷ record {
      method = "POST";
      pattern = api (word "violations" ∷ word "" ∷ []);
      gate = only role_officer;
      target = proxy violations;
    }
    ∷ record {
      method = "GET";
      pattern = api (word "invoices" ∷ word "" ∷ []);
      gate = signed_in;
      target = proxy payments;
    }
    ∷ []
