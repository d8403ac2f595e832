-- ===== src/Iam/Matrix/Listing.antt =====
-- What `PermissionsOf` lists is what `Allowed` allows.
use run.Base.{ℕ, zero, suc, Option, none, some, List, [], ◌∷◌}
use run.Iam.Matrix.{
  Access, Permission, event_publish, event_config, order_view, roster_export, manual_confirm,
  refund_request, refund_reject, refund_approve, refund_settle, exception_return, prepay_cancel,
  order_archive, bib_assign, bib_swap, bib_void, racepack_issue, racepack_undo, offline_conflict,
  result_import, result_publish, result_unpublish, claim_case_create, claim_bind, photo_upload,
  photo_tag, photo_removal_review, content_manage, access_manage, recon_close, recon_resolve,
  refund_correction, audit_view, price_config, coupon_manage, payment_account_manage, proof_review,
}

-- The place of a permission in a list.
data Has : List Permission → Permission → Type 0 where
  first : {p : Permission} (ps : List Permission) → Has (p ∷ ps) p
  later : {p : Permission} (q : Permission) {ps : List Permission} → Has ps p → Has (q ∷ ps) p

-- The listing gives the access `a` for the permission `p`.
pub data Grants : List (Permission × Access) → Permission → Access → Type 0 where
  here : {p : Permission} {a : Access} (es : List (Permission × Access)) → Grants ((p, a) ∷ es) p a
  there :
      {p : Permission} {a : Access} (e : Permission × Access) {es : List (Permission × Access)}
      → Grants es p a
      → Grants (e ∷ es) p a

nth : ℕ → List Permission → Option Permission
nth k [] = none
nth zero (p ∷ ps) = some p
nth (suc k) (p ∷ ps) = nth k ps

index_of : Permission → ℕ
index_of event_publish = 0
index_of event_config = 1
index_of order_view = 2
index_of roster_export = 3
index_of manual_confirm = 4
index_of refund_request = 5
index_of refund_reject = 6
index_of refund_approve = 7
index_of refund_settle = 8
index_of exception_return = 9
index_of prepay_cancel = 10
index_of order_archive = 11
index_of bib_assign = 12
index_of bib_swap = 13
index_of bib_void = 14
index_of racepack_issue = 15
index_of racepack_undo = 16
index_of offline_conflict = 17
index_of result_import = 18
index_of result_publish = 19
index_of result_unpublish = 20
index_of claim_case_create = 21
index_of claim_bind = 22
index_of photo_upload = 23
index_of photo_tag = 24
index_of photo_removal_review = 25
index_of content_manage = 26
index_of access_manage = 27
index_of recon_close = 28
index_of recon_resolve = 29
index_of refund_correction = 30
index_of audit_view = 31
index_of price_config = 32
index_of coupon_manage = 33
index_of payment_account_manage = 34
index_of proof_review = 35
