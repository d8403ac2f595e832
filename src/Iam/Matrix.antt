-- ===== src/Iam/Matrix.antt =====
-- The roles and the permission matrix of api/internal/iam: roles.go and matrix.go.
pub mod Listing
use run.Base.{Bool, true, false, Option, none, some, List, [], ◌∷◌}

pub data Role : Type 0 where
  admin ops finance support race_supervisor race_staff photographer : Role

pub data Access : Type 0 where
  read write : Access

pub data Permission : Type 0 where
  event_publish event_config order_view roster_export manual_confirm : Permission
  refund_request refund_reject refund_approve refund_settle exception_return : Permission
  prepay_cancel order_archive bib_assign bib_swap bib_void racepack_issue : Permission
  racepack_undo offline_conflict result_import result_publish result_unpublish : Permission
  claim_case_create claim_bind photo_upload photo_tag photo_removal_review : Permission
  content_manage access_manage recon_close recon_resolve refund_correction : Permission
  audit_view price_config coupon_manage payment_account_manage proof_review : Permission

abbrev pub all_permissions : List Permission
all_permissions =
    event_publish ∷ event_config ∷ order_view ∷ roster_export ∷ manual_confirm ∷ refund_request
    ∷ refund_reject ∷ refund_approve ∷ refund_settle ∷ exception_return ∷ prepay_cancel
    ∷ order_archive ∷ bib_assign ∷ bib_swap ∷ bib_void ∷ racepack_issue ∷ racepack_undo
    ∷ offline_conflict ∷ result_import ∷ result_publish ∷ result_unpublish ∷ claim_case_create
    ∷ claim_bind ∷ photo_upload ∷ photo_tag ∷ photo_removal_review ∷ content_manage ∷ access_manage
    ∷ recon_close ∷ recon_resolve ∷ refund_correction ∷ audit_view ∷ price_config ∷ coupon_manage
    ∷ payment_account_manage ∷ proof_review ∷ []

-- A cell: "W", "R" or "".
pub data Cell : Type 0 where
  w r nil : Cell

abbrev pub access_of : Cell → Option Access
access_of w = some write
access_of r = some read
access_of nil = none

-- One row, its cells in the order of AllRoles.
abbrev pub row : (a o f s v t p : Cell) → Role → Option Access
row a o f s v t p admin = access_of a
row a o f s v t p ops = access_of o
row a o f s v t p finance = access_of f
row a o f s v t p support = access_of s
row a o f s v t p race_supervisor = access_of v
row a o f s v t p race_staff = access_of t
row a o f s v t p photographer = access_of p

unfoldable pub matrix : Permission → Role → Option Access
matrix event_publish = row r w nil r nil nil nil
matrix event_config = row r w r nil nil nil nil
matrix order_view = row r r r r r r nil
matrix roster_export = row r w nil nil w nil nil
matrix manual_confirm = row nil nil w nil nil nil nil
matrix refund_request = row nil nil w w nil nil nil
matrix refund_reject = row nil nil w r nil nil nil
matrix refund_approve = row nil r w r nil nil nil
matrix refund_settle = row nil r w r nil nil nil
matrix exception_return = row nil nil w r nil nil nil
matrix prepay_cancel = row r w r w nil nil nil
matrix order_archive = row r w r r nil nil nil
matrix bib_assign = row r w nil nil nil nil nil
matrix bib_swap = row r w nil nil w nil nil
matrix bib_void = row r w nil nil nil nil nil
matrix racepack_issue = row nil r nil r w w nil
matrix racepack_undo = row nil w nil nil w nil nil
matrix offline_conflict = row r w nil nil w nil nil
matrix result_import = row r w nil r nil nil nil
matrix result_publish = row r w nil r nil nil nil
matrix result_unpublish = row w w nil nil nil nil nil
matrix claim_case_create = row r w nil w nil nil nil
matrix claim_bind = row r w nil r nil nil nil
matrix photo_upload = row r w nil nil nil nil w
matrix photo_tag = row r w nil nil nil nil w
matrix photo_removal_review = row w w nil nil nil nil nil
matrix content_manage = row r w nil nil nil nil nil
matrix access_manage = row w nil nil nil nil nil nil
matrix recon_close = row r nil w nil nil nil nil
matrix recon_resolve = row r nil w nil nil nil nil
matrix refund_correction = row nil nil w r nil nil nil
matrix audit_view = row w r r nil nil nil nil
matrix price_config = row r w r nil nil nil nil
matrix coupon_manage = row r w r r nil nil nil
matrix payment_account_manage = row r r w nil nil nil nil
matrix proof_review = row w r w r nil nil nil

-- `Allowed`, on the entry of the matrix.
abbrev pub meets : Option Access → Access → Bool
meets none need = false
meets (some write) need = true
meets (some read) write = false
meets (some read) read = true

unfoldable pub allowed : Role → Permission → Access → Bool
unfolding matrix
allowed role p need = meets (matrix p role) need

abbrev pub add_entry :
    Permission → Option Access → List (Permission × Access) → List (Permission × Access)
add_entry p none rest = rest
add_entry p (some a) rest = (p, a) ∷ rest

-- PermissionsOf, the entries of its map in the order in which they are added.
unfoldable pub permissions_from : Role → List Permission → List (Permission × Access)
unfolding matrix
permissions_from role [] = []
permissions_from role (p ∷ ps) = add_entry p (matrix p role) (permissions_from role ps)

unfoldable pub permissions_of : Role → List (Permission × Access)
unfolding permissions_from
permissions_of role = permissions_from role all_permissions
