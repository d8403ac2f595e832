-- ===== src/Lib.antt =====
-- A verification library for the back end of WeRun (api/), which sells places in races: it quotes an
-- order, reserves its seats, takes the payment by proofs that staff review, and releases what is not
-- paid in time.
--
-- The parts, and how they interact:
-- * Platform.Apperr is api/internal/platform/apperr with the transactions of platform/db: a step of a
--   transaction is a function from a state to an error or a value and a state, and `in_tx` keeps the
--   state of a step that fails. Platform.Table is a table with a primary key and the conditional updates
--   (`UPDATE ... WHERE`) that the stores generated by sqlc run.
-- * Store is the rows and the database that the services share.
-- * Pricing is api/internal/pricing. Tier, Age, Coupon, Ident and Allocate are SelectTier, AgeOn,
--   CouponDiscount, PickIdentOffset and Allocate of quote.go; Quote composes them to Service.Quote;
--   Counter and Reserve are the counters of seats and coupon uses (counters.go, pricing.sql.go);
--   Rules is UpdatePriceRule of rules.go.
-- * Registration is api/internal/registration. Orders is the state changes of an order (orders.go,
--   locks.go, ConfirmPaid of create.go), which call Consume and Release of Pricing.Reserve; Held,
--   Moved, Consistent, Finish, Outcome, Changed and Settled relate the counters to the participants of
--   the orders; Create is createOrderTx of create.go; Idempotent is CreateOrder around it, with its
--   keys; Free is CreateFreeSignup of free.go; Deadline is the loop of deadline.go, which releases
--   orders that are not paid in time.
-- * Payment.Review is the review of payment proofs (payment/review.go), which pays an order by
--   ConfirmPaid or opens it for another proof, and Payment.Submit is SubmitProof (payment/proofs.go),
--   which puts the order under review. Payment.System relates all of them: Linked, Refs and the
--   modules of System say what holds between orders, counters, proofs and bank references across the
--   transactions of both packages, on the forms of an order in Registration.Status. Payment.Inversion
--   and Platform.Inversion take apart the steps that succeeded.
-- * Iam is api/internal/iam: Limiter is the login limiter, Sessions is Login, which takes a place of the
--   limiter and gives it back (Requests is Authenticate and Logout of service.go), Matrix is the roles and
--   the permission matrix.
-- * Runner is the sign-in of runners (runner): OtpLimiter is runner/limiter.go, Rows the rows of codes,
--   users and sessions, Otp is RequestPhoneCode and VerifyPhoneCode of otp.go, which ask the limiter
--   first, and Session is Authenticate and Logout of service.go.
-- * Notify.Worker is SendWorker.Work (notify/worker.go), which sends a message and marks its log.
-- * Event is the validation of events (event/validate.go).
-- * Base is the names and the small lemmas that all of them share. Tests runs the theorems on data.
--
-- How the model reads the code. A transaction is one step, since PostgreSQL's row locks and the
-- advisory locks order those that write the same rows; Quote reads the price tiers without a lock,
-- so Pricing.Quote.Reserved takes the counters at the time of the reservation as others may have
-- left them. Amounts, counters, times and keys are natural numbers: the columns have CHECK
-- constraints against negative values, and the products of Pricing.Allocate wrap as on int64. A
-- function of Go's standard library on texts is a parameter. Loops over lists are structural. The
-- loop of ProcessDeadlines runs on fuel, and more fuel than there are open reservations is enough,
-- since each further round releases at least one order. The idempotency row keeps the order itself,
-- where the code keeps its JSON, which generated conversions make.
--
-- Not modelled: HTTP, start-up, generated conversions, audit texts, random document numbers, files,
-- cryptography, the texts of notifications and their queue, the profiles of runners and their consents,
-- the validation of contact fields, the login by Telegram, the edits of coupons and of payment accounts,
-- and the web front ends.
pub mod Base
pub mod Pricing
pub mod Platform
pub mod Store
pub mod Registration
pub mod Event
pub mod Notify
pub mod Payment
pub mod Iam
pub mod Runner
pub mod Tests
