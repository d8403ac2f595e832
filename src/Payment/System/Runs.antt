-- ===== src/Payment/System/Runs.antt =====
-- Any sequence of the transactions on orders and payments keeps the database sound.
use Prim.Native.String.{String}
use run.Base.{ℕ, ◌≡◌, refl, Bool, Option, none, some, List}
use run.Platform.Apperr.{Result, ok}
use run.Store.{Db, PriceRuleRow}
use run.Pricing.Counter.{Counter}
use run.Pricing.Rules.{PriceRuleInput, update_price_rule_tx}
use run.Pricing.Rules.Locked.{update_price_rule_tx-IsUpdated}
use run.Registration.Orders.{cancel_order}
use run.Registration.Deadline.{expire_order}
use run.Registration.Create.{EventRow, ResolvedParticipant, create_order_tx}
use run.Registration.Create.Fresh.{IsFresh}
use run.Payment.Review.{PayDb, ApproveInput, RejectInput, approve_tx, reject_tx}
use run.Payment.Submit.{SubmitInput, submit_tx}
use run.Registration.Free.{FreeEventRow, FreeSignupInput, create_free_signup_tx}
use run.Registration.Free.Seats.{create_free_signup_tx-IsConsistent}
use run.Payment.System.{IsSound, sound, approve_tx-IsSound}
use run.Payment.System.Reviews.{reject_tx-IsSound}
use run.Payment.System.Submissions.{submit_tx-IsSound}
use run.Payment.System.Endings.{cancel_order-IsSound, expire_order-IsSound}
use run.Payment.System.Placements.{create_order_tx-IsSound}

-- A transaction that commits. The key of a new row is one that no row has or names.
pub data Commit : PayDb → PayDb → Type 0 where
  creates :
      (upper_trim : String → String) (user event_id : ℕ) (ev : EventRow) (coupon_code : String)
      (parts : List ResolvedParticipant) (account : Option ℕ) (o now : ℕ)
      (consent : Result (Unit {0})) (s : PayDb) (r : Unit {0} × Db)
      → s.db.orders o ≡ none
      → IsFresh o s.db.participants
      → create_order_tx upper_trim user event_id ev coupon_code parts account o now consent s.db
        ≡ ok r
      → Commit s (record s { db = r.1 })
  submits :
      (rune_count : String → ℕ) (user o file_id id now : ℕ) (input : SubmitInput) (s : PayDb)
      (r : Unit {0} × PayDb)
      → s.proofs id ≡ none
      → submit_tx rune_count user o file_id id now input s ≡ ok r
      → Commit s r.1
  approves :
      (staff now received_at : ℕ) (input : ApproveInput) (id : ℕ) (s : PayDb) (r : Unit {0} × PayDb)
      → approve_tx staff now received_at input id s ≡ ok r
      → Commit s r.1
  rejects :
      (staff now : ℕ) (input : RejectInput) (id : ℕ) (s : PayDb) (r : Unit {0} × PayDb)
      → reject_tx staff now input id s ≡ ok r
      → Commit s r.1
  cancels :
      (user o : ℕ) (s : PayDb) (r : Unit {0} × Db)
      → cancel_order user o s.db ≡ ok r
      → Commit s (record s { db = r.1 })
  expires :
      (o : ℕ) (s : PayDb) (r : Bool × Db)
      → expire_order o s.db ≡ ok r
      → Commit s (record s { db = r.1 })
  signs_up :
      (lower : String → String) (user id now : ℕ) (event : Option FreeEventRow)
      (input : FreeSignupInput) (consent : Result (Unit {0})) (s : PayDb) (r : Unit {0} × Db)
      → create_free_signup_tx lower user id now event input consent s.db ≡ ok r
      → Commit s (record s { db = r.1 })
  reprices :
      (id : ℕ) (input : PriceRuleInput) (row : PriceRuleRow) (c : Counter) (s : PayDb)
      (r : Unit {0} × Db)
      → s.db.price_rules id ≡ some row
      → s.db.price_rule_counts id ≡ some c
      → update_price_rule_tx id input s.db ≡ ok r
      → Commit s (record s { db = r.1 })

pub data Commits : PayDb → PayDb → Type 0 where
  done : (s : PayDb) → Commits s s
  step : {s t u : PayDb} → Commit s t → Commits t u → Commits s u

Commit-IsSound : {s t : PayDb} → Commit s t → IsSound s → IsSound t
Commit-IsSound
      (creates upper_trim user event_id ev coupon_code parts account o now consent s r new alone h)
      sd =
    create_order_tx-IsSound upper_trim user event_id ev coupon_code parts account o now consent s r
      sd new alone h
Commit-IsSound (submits rune_count user o file_id id now input s r new h) sd =
    submit_tx-IsSound rune_count user o file_id id now input s r sd new h
Commit-IsSound (approves staff now received_at input id s r h) sd =
    approve_tx-IsSound staff now received_at input id s r sd h
Commit-IsSound (rejects staff now input id s r h) sd = reject_tx-IsSound staff now input id s r sd h
Commit-IsSound (cancels user o s r h) sd = cancel_order-IsSound user o s r sd h
Commit-IsSound (expires o s r h) sd = expire_order-IsSound o s r sd h
Commit-IsSound (signs_up lower user id now event input consent s r h) sd =
    let (c, orders) =
      create_free_signup_tx-IsConsistent lower user id now event input consent s.db r
        sd.is_consistent h in
    sound (record s { db = r.1 }) s.db.orders s.proofs c orders refl sd.well_formed sd.linked
      sd.unique_refs
Commit-IsSound (reprices id input row c s r there counted h) sd =
    let u = update_price_rule_tx-IsUpdated id input row c s.db r sd.is_consistent there counted h in
    sound (record s { db = r.1 }) s.db.orders s.proofs u.is_consistent u.orders_kept refl
      sd.well_formed sd.linked sd.unique_refs

-- However orders are created, cancelled and expired, their proofs submitted, approved and rejected,
-- free sign-ups made and price rules changed, in any order, a sound database stays sound: the counters
-- count the seats of the orders and pass no limit, each order has the form of its status, and the
-- orders under review are those that have a waiting proof, and only one, and no two proofs that wait
-- or are approved name the same bank reference of the same account.
pub Commits-IsSound : {s t : PayDb} → Commits s t → IsSound s → IsSound t
Commits-IsSound (done s) sd = sd
Commits-IsSound (step c cs) sd = Commits-IsSound cs (Commit-IsSound c sd)
