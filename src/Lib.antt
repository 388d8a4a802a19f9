-- ===== src/Lib.antt =====
-- costcrew: the console of a FinOps crew (a Go program), its core logic.
--
-- The program watches an estate's spend, turns irregular days into anomalies, and runs a board of
-- work on which analysts write deliverables that only a person posts.
--
--   Base      what the other modules share: Go's slices, texts, errors, int64, database tables
--   Money     internal/money/money.go: amounts as integer cents (Cents) and micro-units (Micros).
--             Money.Amount has the arithmetic and the printers, Money.Decimal the parsers
--   Detect    internal/detect/detect.go: the irregular days of one series. Detect.Series has the data
--             and the drivers, Detect.Median the sample's middle, Detect.Coalesce the collapse of an
--             incident, Detect.Search is Find
--   Anomaly   internal/anomaly/anomaly.go: the table of anomalies. Anomaly.Store has the row and what
--             an event says of it, Anomaly.Transition the moves (Assign, Explain, Accept, Dismiss),
--             Anomaly.Detection the pass (Run, upsert, attribute), Anomaly.Lifecycle all of them as
--             steps of one relation
--   Crew      internal/crew. Crew.Roles is roles.go and roles.yaml: who may decide a class of
--             decision. Crew.Board is crew.go and decision.go: Tables has the rows, Work the
--             operations on one task, Stamp Post and Return, Sprints FromAnomaly, Approve and
--             CloseSprint, Requests the decision requests. Steps is every operation as a step,
--             Writes and Split take each step apart into single statements. Crew.Halts is halt.go and
--             SetState and splitList of roster.go: the halt of a desk and its lifting. Crew.Options is
--             options.go and answer.go: Fence and Block read the block of a deliverable, Gate saves
--             its options, Marks are the writes on them and LiveRivalsOf, Answer whose stamp it is
--   Finops    internal/finops/supervise.go and apply.go: Apply is ApplyAs and its side effects, Rank,
--             Routing, Supervise and Pass the supervisor's pass; Console is optionAction of
--             internal/web/decisions.go. Reach is all of them, over time
--   Enforce   internal/enforce/enforce.go: Enforce.Plans is MakePlan and Fingerprint, Enforce.Sending
--             is Apply
--   Store     internal/store/store.go: the journal, a hash chain. Store.Json is canonical and
--             writeString, Store.Journal is Journal and VerifyChain over the lines of the file, which
--             encoding/json, a parameter, reads
--   Auth      internal/auth/auth.go and external.go: Auth.Passwords the stored form of a password,
--             Auth.Accounts the accounts and the lockout, Auth.Sessions the cookies and CSRF tokens,
--             Auth.External the provider's sign-in. Auth.Console is the handlers of internal/web
--             (ops.go, server.go, oidc.go) that call them, Auth.Policy who gets which role
--
-- How the parts interact: Find's findings are what a detection pass reconciles with the table of
-- anomalies; FromAnomaly opens a task for one; Post, Return and Approve ask MayDecide before they
-- write; a decision request is a deliverable of the supervisor's task and is rewritten by each pass
-- of the supervisor, who applies an option of a posted deliverable or carries all of them to their
-- owner; the owner's answer through the console applies or refuses one; to apply it moves the anomaly,
-- halts the desk or adds the driver that it is about. A handler of the web console changes accounts only where the form
-- carries the session's CSRF token, and manages them only for a signed-in admin.
--
-- A database table is a list of rows, and an operation takes the tables to their next contents or to
-- an error; a database call that itself fails is not modelled. An int64 is an integer whose operations
-- wrap around. A text is its list of code points. The clock's reading, the id that the database gives
-- a new row, a digest and the z score of a finding (a float64) are arguments. So is what encoding/json
-- reads of a text. Where a call writes before it fails, the tables it leaves are given with the error.
--
-- There is no fuel: every loop is over a list.
--
-- Not modelled: rendering, HTTP, the connectors of providers, the web console's other handlers, the
-- OpenID Connect flow, the body of a decision request, the checks of an option's structured target, and
-- what applying it does to periods, allocation rules, announced drivers and explainers; float64
-- computations.
pub mod Base
pub mod Money
pub mod Detect
pub mod Anomaly
pub mod Crew
pub mod Enforce
pub mod Auth
pub mod Finops
pub mod Store
