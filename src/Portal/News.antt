-- ===== src/Portal/News.antt =====
-- web/src/components/notification-bell.tsx, the gateway and the services: where a notification leads.
mod Tests
use mathlib.Core.Path.{subst}
use swiftmind_parking_portal.Common.{
  String, ◌≡◌, ◌≢◌, refl, sym, ap, ◌∙◌, ◌⊎◌, inl, inr, Bool, true, false, not, ◌&&◌, Bool-cases,
  Option, none, some, map, take, select, List, [], ◌∷◌, ◌=t◌, All, All-imp, All-select, Any,
  Any-All, Any-gives, Any-of_map, Any-of_take, All-of_map, All-take, find?-holds, find?-test,
  eq_iff, arith, ℕ, zero, suc,
}
use swiftmind_parking_portal.Fine.Platform.{Runtime}
use swiftmind_parking_portal.Gateway.{Claims, Config, dispatch, forward, identify, violations}
use swiftmind_parking_portal.Gateway.Segments.{words}
use swiftmind_parking_portal.Violation
use swiftmind_parking_portal.Violation.{stored, attach_photo_url}
use swiftmind_parking_portal.Notification
use swiftmind_parking_portal.Handlers.{Response, json, get_response}
use swiftmind_parking_portal.Handlers
use swiftmind_parking_portal.System.{System, Reach}
use swiftmind_parking_portal.System.Links.{Linked, IsOwnNews}
use swiftmind_parking_portal.System.Invariant.{Reach-Linked}
use swiftmind_parking_portal.Web.Host.{Host}
use swiftmind_parking_portal.Web.Markup.{Offers}
use swiftmind_parking_portal.Web.Effect.{Arrived}
use swiftmind_parking_portal.Web.Http.{Json, Js, ok, settle}
use swiftmind_parking_portal.Web.Types
use swiftmind_parking_portal.Web.Client.{get_violation, path, options}
use swiftmind_parking_portal.Web.Client.Routing.{arrives, dispatch-arrives, get_path}
use swiftmind_parking_portal.Web.Page.Home.{open_notification, bell}
use swiftmind_parking_portal.Web.Page.Home.Bell.{bell-Offers}
use swiftmind_parking_portal.Wire.{Encoder, notifications_body, sent, pluck}
use swiftmind_parking_portal.Wire.Reading.{
  web_notification, as_items-notifications, notifications_outcome,
}
use swiftmind_parking_portal.Wire.Transport.{Carries, settle-sent}
use swiftmind_parking_portal.Portal.{get_answer, get_call, data_of}

module _ (rt : Runtime) where
  -- A call for a violation is served by `Get`, on behalf of the owner of the token.
  get_call-get :
      (cfg : Config) (token : String) (c : Claims) (id : String) (w : Violation.World rt)
      → (token =t "") ≡ false
      → cfg.verify token ≡ some c
      → id ≢ ""
      → words id ≡ id ∷ []
      → get_call rt cfg token id w ≡ some (get_response rt (Violation.get rt id c.role c.email w))
  unfolding get_call get_answer forward identify arrives path options Handlers.get_violation
  get_call-get cfg token c id w n v filled one =
      ap (λ o. get_answer rt o w)
        (dispatch-arrives cfg token c (get_violation id) n v (filled, one))
      ∙ rw (get_path id one) refl

  -- The caller may see the violation: its owner, or anybody who is no member.
  Violation-seen :
      (id role email : String) (w : Violation.World rt) (v : Violation.Violation rt)
      → stored rt id w ≡ some v
      → (email ≡ v.owner_email) ⊎ (role ≢ "member")
      → Violation.get rt id role email w ≡ Violation.ok (attach_photo_url rt v)
  unfolding Violation.get
  Violation-seen id role email w v f h =
      let seen : (role =t "member" && not (v.owner_email =t email)) ≡ false =
        ground (arith, eq_iff role "member", eq_iff v.owner_email email) in
      rw (f, seen, Violation.get) refl

  -- No violation was issued under the email of a member.
  abbrev pub IsNoIssuer : Claims → List (Violation.Violation rt) → Type 0
  IsNoIssuer c vs = All (λ v. (v.issued_by_email ≢ c.email) ⊎ (c.role ≢ "member")) vs

  news-seen :
      (c : Claims) (w : Violation.World rt) (n : Notification.Notification)
      → IsNoIssuer c w.violations
      → IsOwnNews rt w n
      → n.recipient ≡ c.email
      → (v : Violation.Violation rt) × (stored rt n.violation_id w ≡ some v)
        × ((c.email ≡ v.owner_email) ⊎ (c.role ≢ "member"))
  unfolding stored
  news-seen c w n h (v, f, inl owner) own = (v, f, inl (sym own ∙ owner))
  news-seen c w n h (v, f, inr issuer) own = (
    v,
    f,
    elim (find?-holds (λ u. (u.issued_by_email ≢ c.email) ⊎ (c.role ≢ "member")) _ w.violations v f
        h) [ inl k ↦ absurd (k (sym issuer ∙ own)) | inr k ↦ inr k ],
  )

  listed-IsOwnNews :
      (s : System rt) (email : String)
      → Linked rt s
      → All
          (λ n. IsOwnNews rt s.violation n × (n.recipient ≡ email))
          (Notification.list email s.notifications)
  unfolding Notification.list
  listed-IsOwnNews s email l = All-take _ 50 (select (λ n. n.recipient =t email) s.notifications) (
      All-imp _ (λ n h. (h.0, (eq_iff n.recipient email).0 h.1))
        (All-select (IsOwnNews rt s.violation) (λ n. n.recipient =t email) s.notifications l.news))

  attach_photo_url-id : (v : Violation.Violation rt) → (attach_photo_url rt v).id ≡ v.id
  unfolding attach_photo_url
  attach_photo_url-id v = ground arith

  web-target :
      (e : Encoder rt) (row : String × Notification.Notification) (id : String)
      → (web_notification rt e row).violation_id ≡ some id
      → row.1.violation_id ≡ id
  web-target e (k, n) id h = ground arith

  module _ (host : Host) (js : Js) (write : Json → String) (e : Encoder rt)
      (lib : Violation.Library rt) (texts : Notification.Library) (cfg : Config) (token : String)
      (c : Claims) where
    -- The page of the violation gets it.
    abbrev pub Opens : (id : String) → Violation.World rt → Type 0
    Opens id w =
        (v : Violation.Violation rt) × (get_call rt cfg token id w ≡ some (json 200 v))
        × (v.id ≡ id)

    pub bell_data :
        (rows : List (String × Notification.Notification))
        → Carries js write (notifications_body rt e rows)
        → data_of (notifications_outcome js (sent write (notifications_body rt e) (json 200 rows)))
          ≡ some (map (web_notification rt e) rows)
    unfolding notifications_outcome notifications_body pluck
    bell_data rows k =
        rw (settle-sent js write (notifications_body rt e) (json 200 rows) (refl, k))
          (rw (as_items-notifications rt e rows) refl)

    opens :
        (t : System rt) (id : String)
        → (token =t "") ≡ false
        → cfg.verify token ≡ some c
        → IsNoIssuer c t.violation.violations
        → id ≢ ""
        → words id ≡ id ∷ []
        → (n : Notification.Notification) → IsOwnNews rt t.violation n
        → n.recipient ≡ c.email
        → n.violation_id ≡ id
        → Opens id t.violation
    unfolding get_response stored
    opens t id n v issuer filled one news own to same =
        let (u, found, seen) = news-seen c t.violation news issuer own to in
        let found' = subst (λ x. stored rt x t.violation ≡ some u) same found in
        (
          attach_photo_url rt u,
          get_call-get cfg token c id t.violation n v filled one
              ∙ ap (λ a. some (get_response rt a))
                  (Violation-seen id c.role c.email t.violation u found' seen),
          attach_photo_url-id u
              ∙ (eq_iff u.id id).0 (find?-test (λ x. x.id =t id) t.violation.violations u found'),
        )

    -- In every state that is reached from linked tables, such as empty ones, whenever the bell of a
    -- signed-in user, with the notifications that the service lists for the user, leads to a
    -- violation, the call that its page makes is answered 200 through the gateway with that
    -- violation, unless the user is a member who has issued violations. The identifier is one
    -- segment of a path, and the page reads what the service wrote.
    pub bell-Opens :
        {s t : System rt} (id : String) (rows : List (String × Notification.Notification))
        (result : Option (List Types.Notification))
        → Linked rt s
        → Reach rt lib texts s t
        → (token =t "") ≡ false
        → cfg.verify token ≡ some c
        → IsNoIssuer c t.violation.violations
        → map (λ r. r.1) rows ≡ Notification.list c.email t.notifications
        → Carries js write (notifications_body rt e rows)
        → result
          ≡ data_of
              (notifications_outcome js (sent write (notifications_body rt e) (json 200 rows)))
        → Offers (open_notification (some id)) (bell host result)
        → id ≢ ""
        → words id ≡ id ∷ []
        → Opens id t.violation
    bell-Opens {t = t} id rows result l r n v issuer same k got offers filled one =
        let linked = Reach-Linked rt lib texts l r in
        let target =
          λ (ns : List Types.Notification). Any (λ m. m.violation_id ≡ some id) (take 15 ns) in
        let arrived : target (map (web_notification rt e) rows) =
          subst (Arrived target) (got ∙ bell_data rows k)
            ((bell-Offers host result (some id)).0 offers) in
        let named : Any (λ row. (web_notification rt e row).violation_id ≡ some id) rows =
          Any-of_map _ (web_notification rt e) rows
            (Any-of_take _ 15 (map (web_notification rt e) rows) arrived) in
        let news : All (λ n. IsOwnNews rt t.violation n × (n.recipient ≡ c.email))
            (map (λ row. row.1) rows) =
          subst (All (λ n. IsOwnNews rt t.violation n × (n.recipient ≡ c.email))) (sym same)
            (listed-IsOwnNews t c.email linked) in
        Any-gives _ rows
          (λ row h. opens t id n v issuer filled one row.1 h.1.0 h.1.1 (web-target e row id h.0))
          (Any-All _ _ rows named (All-of_map _ (λ row. row.1) rows news))
