-- ===== src/Store.antt =====
-- The tables that the modelled services read and write (api/internal/*/store, generated from
-- api/db/queries, over the schema of api/db/migrations). A row holds the columns that the modelled
-- code uses. The counter columns of event_categories, price_rules and coupons are kept in tables of
-- their own, beside the columns that no order changes.
use Prim.Native.String.{String}
use run.Base.{ℕ, Bool, Option, List}
use run.Platform.Table.{Table}
use run.Pricing.Counter.{Counts}
use run.Pricing.Tier.{Audience}
use run.Pricing.Coupon.{DiscountType}

pub record CategoryRow : Type 0 where
  pub event_id : ℕ
  pub min_age : ℕ

pub record PriceRuleRow : Type 0 where
  pub event_id : ℕ
  pub audience : Audience
  pub price_cents : ℕ
  pub sale_starts_at : Option ℕ
  pub sale_ends_at : Option ℕ
  pub sort_order : ℕ

-- category_price_rules
pub record CategoryLink : Type 0 where
  pub category_id : ℕ
  pub price_rule_id : ℕ

pub record CouponRow : Type 0 where
  pub code : String
  pub event_id : Option ℕ
  pub discount_type : DiscountType
  pub discount_value : ℕ
  pub min_runners : Option ℕ
  pub valid_from : Option ℕ
  pub valid_until : Option ℕ
  pub active : Bool

pub data OrderStatus : Type 0 where
  pending_payment proof_submitted proof_rejected paid expired cancelled : OrderStatus

pub data ReservationState : Type 0 where
  reserved consumed released : ReservationState

pub data ReleaseKind : Type 0 where
  order_expired order_cancelled : ReleaseKind

-- reg_orders
pub record OrderRow : Type 0 where
  pub event_id : ℕ
  pub buyer_user_id : ℕ
  pub status : OrderStatus
  pub reservation_state : ReservationState
  pub release_kind : Option ReleaseKind
  pub list_amount_cents : ℕ
  pub discount_cents : ℕ
  pub ident_offset_cents : ℕ
  pub amount_cents : ℕ
  pub coupon_id : Option ℕ
  pub payment_account_id : ℕ
  pub deadline_at : Option ℕ
  pub paid_at : Option ℕ
  pub version : ℕ

pub data RegistrationStatus : Type 0 where
  pending confirmed cancelled : RegistrationStatus

-- A row of order_participants with the row of registrations that belongs to it.
pub record ParticipantRow : Type 0 where
  pub order_id : ℕ
  pub category_id : ℕ
  pub price_rule_id : ℕ
  pub list_price_cents : ℕ
  pub paid_cents : ℕ
  pub event_id : ℕ
  pub id_no_hash : ℕ
  pub registration_status : RegistrationStatus
  pub cancel_reason : Option ReleaseKind

-- coupon_redemptions; the key is the order.
pub record RedemptionRow : Type 0 where
  pub order_id : ℕ
  pub coupon_id : ℕ
  pub state : ReservationState
  pub discount_cents : ℕ

-- free_signups, which take a seat of the category at once. No code changes a row, so each of them is
-- REGISTERED.
pub record FreeSignupRow : Type 0 where
  pub event_id : ℕ
  pub category_id : ℕ
  pub user_id : ℕ
  pub full_name : String
  pub phone_e164 : String

-- What `audit.Record` writes, and what is handed to the notifier.
pub record AuditRow : Type 0 where
  pub action : String
  pub entity_id : ℕ

pub record Notice : Type 0 where
  pub template : String
  pub order_id : ℕ

-- `settings.LoadPayment`
pub record PaymentSettings : Type 0 where
  pub upload_window : ℕ
  pub reupload_window : ℕ
  pub ident_offset_max_cents : ℕ

pub record Db : Type 0 where
  pub categories : Table CategoryRow
  pub category_counts : Counts
  pub price_rules : Table PriceRuleRow
  pub price_rule_counts : Counts
  pub links : List CategoryLink
  pub coupons : Table CouponRow
  pub coupon_counts : Counts
  pub coupon_by_code : String → Option ℕ
  pub orders : Table OrderRow
  pub order_ids : List ℕ
  pub participants : List ParticipantRow
  pub redemptions : List RedemptionRow
  pub free_signups : List FreeSignupRow
  pub settings : PaymentSettings
  pub audit : List AuditRow
  pub outbox : List Notice
