-- ===== src/Registration/Free.antt =====
-- The transaction of `CreateFreeSignup` of api/internal/registration/free.go, from contact fields that
-- are normalised and validated already. `lower` stands for PostgreSQL's lower, the event that the slug
-- selects and the outcome of SignConsent come as arguments, and the random number is left out.
pub mod Seats
use Prim.Native.String.{String}
use text.Mathlib.Text.{◌==◌ as str_eq}
use run.Base.{
  ℕ, ◌+◌, Bool, true, false, not, ◌&&◌, ◌||◌, Option, none, some, List, [], ◌∷◌, ltb, ◌==◌,
  if◌then◌else◌, some_and,
}
use run.Base.Int.{pos, ltb_ℤ}
use run.Platform.Apperr.{
  field, Error, Result, ok, err, new, with_field, validation_error, event_not_found,
  registration_closed, category_sold_out, already_registered, Tx, pure, lift, guard, ◌>>=◌, ◌>>◌,
}
use run.Platform.Table.{update_where}
use run.Pricing.Age.{Date, age_on}
use run.Pricing.Counter.{Counter, fits}
use run.Store.{Db, CategoryRow, FreeSignupRow, AuditRow}
use run.Registration.Orders.{record_audit}

-- FreeSignupLockEventRow.
pub record FreeEventRow : Type 0 where
  pub id : ℕ
  pub is_published : Bool
  pub is_free_activity : Bool
  pub registration_open : Bool
  pub registration_opens_at : Option ℕ
  pub registration_closes_at : Option ℕ
  pub race_date : Date

pub record FreeSignupInput : Type 0 where
  pub category_id : ℕ
  pub full_name : String
  pub phone_e164 : String
  pub birth_date : Option Date

-- freeSignupOpen.
unfoldable pub free_signup_open : FreeEventRow → (now : ℕ) → Bool
free_signup_open ev now =
    if not ev.is_published || not ev.is_free_activity || not ev.registration_open
    then false
    else if some_and (λ opens. ltb now opens) ev.registration_opens_at
    then false
    else not (some_and (λ closes. not (ltb now closes)) ev.registration_closes_at)

abbrev pub event_or_error : Option FreeEventRow → Result FreeEventRow
event_or_error none = err (new 404 event_not_found)
event_or_error (some ev) = ok ev

-- FreeSignupGetCategory; freeSignupFieldError.
abbrev pub of_event : (event_id : ℕ) → Option CategoryRow → Result CategoryRow
of_event event_id none =
    err (with_field validation_error (field "categoryId") "field.category_unavailable")
of_event event_id (some cat) =
    if cat.event_id == event_id
    then ok cat
    else err (with_field validation_error (field "categoryId") "field.category_unavailable")

abbrev pub get_category : (event_id id : ℕ) → Tx Db CategoryRow
get_category event_id id db = lift (of_event event_id (db.categories id)) db

abbrev pub old_enough : (min_age : ℕ) (race_date : Date) → Option Date → Result (Unit {0})
old_enough min_age race_date none =
    err (with_field validation_error (field "birthDate") "field.required")
old_enough min_age race_date (some birth) =
    if ltb_ℤ (age_on birth race_date) (pos min_age)
    then err (with_field validation_error (field "birthDate") "field.too_young")
    else ok tt

unfoldable pub check_age : (min_age : ℕ) (race_date : Date) → Option Date → Result (Unit {0})
check_age min_age race_date birth =
    if ltb 0 min_age then old_enough min_age race_date birth else ok tt

-- FreeSignupTakeSeat.
abbrev pub use_seat : Counter → Counter
use_seat c = record c { used = c.used + 1 }

unfoldable pub take_seat : (category_id : ℕ) → Tx Db (Unit {0})
take_seat category_id db = elim (update_where (fits 1) use_seat category_id db.category_counts) [
  | none ↦ err (new 409 category_sold_out)
  | some t ↦ ok (tt, record db { category_counts = t })
]

-- InsertFreeSignup, with the unique index free_signups_one_active.
pub has_signup : (lower : String → String) → FreeSignupRow → List FreeSignupRow → Bool
has_signup lower f [] = false
has_signup lower f (g ∷ gs) =
    ((g.category_id == f.category_id)
      && str_eq g.phone_e164 f.phone_e164
      && str_eq (lower g.full_name) (lower f.full_name))
    || has_signup lower f gs

unfoldable pub insert_free_signup : (lower : String → String) → FreeSignupRow → Tx Db (Unit {0})
unfolding has_signup
insert_free_signup lower f db =
    if has_signup lower f db.free_signups
    then err (with_field (new 409 already_registered) (field "fullName") "field.already_registered")
    else ok (tt, record db { free_signups = f ∷ db.free_signups })

abbrev pub signup_of : (user event_id : ℕ) → FreeSignupInput → FreeSignupRow
signup_of user event_id input = record {
  event_id = event_id;
  category_id = input.category_id;
  user_id = user;
  full_name = input.full_name;
  phone_e164 = input.phone_e164;
}

-- The seat and the row.
unfoldable pub place_signup : (lower : String → String) → FreeSignupRow → Tx Db (Unit {0})
unfolding take_seat insert_free_signup
place_signup lower f = do take_seat f.category_id; insert_free_signup lower f

unfoldable pub create_free_signup_tx :
    (lower : String → String)
    → (user id now : ℕ) → Option FreeEventRow
    → FreeSignupInput
    → (consent : Result (Unit {0})) → Tx Db (Unit {0})
unfolding free_signup_open check_age place_signup
create_free_signup_tx lower user id now event input consent = do
  ev ← lift (event_or_error event)
  guard (free_signup_open ev now) (new 409 registration_closed)
  cat ← get_category ev.id input.category_id
  lift (check_age cat.min_age ev.race_date input.birth_date)
  place_signup lower (signup_of user ev.id input)
  lift consent
  record_audit (record { action = "free_signup.create"; entity_id = id })
