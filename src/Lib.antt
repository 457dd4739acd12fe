-- ===== src/Lib.antt =====
-- ParkWatch, a portal for parking violations: officers record violations, a versioned ruleset prices
-- them, and members pay the invoices. The Go services stand behind a gateway; the web application
-- under web/src talks to it with a cookie.
--
-- The parts, and where they are modelled:
--   Common       Boolean tests, lists, texts and integers that the other modules share.
--   Domain       pkg/domain/domain.go: the violation types and the roles.
--   Fine         pkg/fine/fine.go: `Calculate`, `Validate` and the two `For` methods, as `calculate`,
--                `validate`, `time_for` and `repeat_for`. Fine.Platform holds float64, math.Round and
--                time.Time as a record, and the documented laws that some proofs use.
--   Payment      internal/payment/{charge,store,service}.go. `World` holds the tables, the locks and the
--                events; each method of the store is a function on it. `Pay` is `pay`: `get`, then
--                `check`, then `resolve`, which takes the lock and charges. Payment.Race runs two
--                requests that interleave between `check` and the lock. What fails (the database,
--                Redis, the broker) is chosen by `Env`.
--                Payment.Effect is all that `Pay` can do to the invoices and the events.
--   Violation    internal/violation/{store,service,rulesclient}.go: `World` holds the plates, the
--                violations, the photos and the published events; `create` is `Create`, cut at its
--                numbered steps into `price`, `issue` and `persist`; Violation.Store is the store;
--                `list_for`, `get`, `photo` and `mark_paid` are the other methods. time.Time with
--                time.Parse, path.Ext, and the content types of the object store come as `Library`.
--   Notification internal/notification/{store,service}.go: the handlers of the two events, `idr` on lists
--                of characters, and the list of a recipient.
--   Events       pkg/events/events.go.
--   Rules        internal/rules/{store,service,cache}.go: `State` is the table of versions, newest first,
--                and the key of the active one in Redis; `publish`, `active` and `seed` are the methods
--                of the service. Rules.Serving has them as steps, each a whole call.
--   Identity     internal/identity/{store,service}.go and pkg/jwt/jwt.go: `login`, `seed`, `issue`, `verify`.
--   Gateway      internal/gateway: `routes` is the table that `Router` builds, with the role that each
--                route asks for; `dispatch` takes a request through CORS, the match, `authRequired`,
--                `requireRole` and `proxyTo`, to an `Outcome`. Gateway.Callers has the headers that a
--                service gets. Gateway.Cookies has the cookies and the
--                headers of `cors`.
--   Handlers     the handler.go of the services, on the requests that the gateway forwards;
--                Handlers.SignIn is `login` of the identity service and of the gateway, up to the cookie,
--                and Handlers.SignOut a session in a browser until `logout`.
--   System       cmd/{violation,payment,notification}/main.go: the services together. `Step` is one
--                request, or one delivery of an event that was published, any number of times and in
--                any order. System.Register is the abstract view, a register of fines.
--   Wire         the JSON of the services, by the tags of their structs, and the interfaces of
--                web/src/lib/types.ts as shapes; Wire.Reading is what the pages get of an answer.
--   Portal       a call of the web application all the way: web/src/lib, the gateway, a handler, and back;
--                Portal.Photo takes a report to the photo that the browser shows.
--   Web.Http     web/src/lib/api.ts: `build_init` is the request, `settle` how the promise settles.
--   Web.Client   the calls of `api` in web/src/lib and web/src/contexts, one constructor each;
--                Web.Client.Routing takes them through web/next.config.ts to the gateway.
--   Web.Auth     web/src/contexts/auth-context.tsx and web/src/hooks/use-require-auth.ts. `Session` is
--                React's state with the query cache; Web.Auth.Isolation adds the account of the cookie, and has
--                the events of one tab as a relation.
--   Web.Page     one module for each page under web/src/app (Home: page.tsx, with the header, the bell
--                and the theme switch of web/src/components). A page has its state, `handle` for its
--                handlers, and `view`, a value of `Markup`, over the results of its queries.
--   Web.Routes   the paths of the pages, and the guards of all of them together.
--   Web.Host     what is taken from the browser: Number, Intl, Date and String methods.
--
-- How they meet: Web.Page hands its mutations to Web.Client, whose options Web.Http sends; the session
-- of Web.Auth guards each page through Web.Routes; the form of Web.Page.NewViolation offers the types
-- that Domain accepts; Rules publishes what Fine validates; Fine prices over the types of Domain.
-- Violation prices with `Fine.calculate` and publishes an event of Events; System delivers it to Payment,
-- which opens an invoice, and the event of its payment back to Violation, and both to Notification.
-- Gateway verifies a token of Identity and names the caller to the Handlers of the services. Wire takes
-- their answers to the pages of Web, and Portal runs a page, the gateway and a service against each other.
--
-- Bounds: every function is structural recursion on a list, except the loop of `idr`, on as much fuel as
-- the number has characters, where each round takes three of them. Go's int and int64 are
-- unbounded integers here, and JavaScript's numbers a type of the host. Theorems about pricing assume
-- the laws of Fine.Platform, for finite floats; they say nothing of the conversion of a price to
-- an integer beyond 2 ^ 62, and the theorems that compare prices have that bound as a hypothesis.
-- The removal of the headers that `Connection` names, after `Director`, is that of
-- net/http/httputil. An identifier in a path is taken to be one segment without escapes.
--
-- Not modelled: the decoding of bodies, and a service that the proxy does not reach; the connections to
-- the broker, the object store and the database, which are I/O, and so the loss of an event that was
-- published; the expiry of a lock in Redis after 15 seconds; styling, the UI kit under
-- web/src/components/ui, and the providers and layout of Next.
pub mod Common
pub mod Domain
pub mod Events
pub mod Fine
pub mod Web
pub mod Rules
pub mod Payment
pub mod Violation
pub mod Notification
pub mod System
pub mod Gateway
pub mod Handlers
pub mod Identity
pub mod Wire
pub mod Portal
