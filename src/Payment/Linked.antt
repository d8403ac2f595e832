-- ===== src/Payment/Linked.antt =====
-- The orders under review and the proofs that wait for it belong together.
pub mod Moves
use mathlib.Core.Path.{subst}
use mathlib.Core.Option.{some-injective}
use run.Base.{
  ℕ, ◌≡◌, refl, sym, ◌∙◌, ap, Bool, true, false, Option, none, some, arith, Bool-cases, inl, inr,
  ◌==◌, if◌then◌else◌, ==→eq, ==_refl,
}
use run.Platform.Table.{Table, put}
use run.Store.{OrderRow}
use run.Registration.Orders.{is_proof_submitted}
use run.Payment.Review.{ProofRow, is_submitted}

-- A proof of the order waits, and the order waits for its review.
abbrev pub Pends : Table ProofRow → (id o : ℕ) → Type 0
Pends proofs id o =
    (p : ProofRow) × (proofs id ≡ some p)
    × (is_submitted p.status ≡ true)
    × (p.reg_order_id ≡ some o)

abbrev pub Waits : Table OrderRow → (o : ℕ) → Type 0
Waits orders o = (row : OrderRow) × (orders o ≡ some row) × (is_proof_submitted row.status ≡ true)

-- Each waiting proof is that of an order under review, each order under review has a waiting proof,
-- and no second one.
pub record IsLinked (orders : Table OrderRow) (proofs : Table ProofRow) : Type 0 where
  pub waits : (id o : ℕ) → Pends proofs id o → Waits orders o
  pub pends : (o : ℕ) → Waits orders o → (id : ℕ) × Pends proofs id o
  pub only : (id id' o : ℕ) → Pends proofs id o → Pends proofs id' o → id ≡ id'

pub put-here : {Row : Type 0} (t : Table Row) (id : ℕ) (row : Row) → put t id row id ≡ some row
put-here t id row = rw (==_refl id) refl

pub put-other :
    {Row : Type 0} (t : Table Row) (id j : ℕ) (row : Row) → (j == id) ≡ false → put t id row j ≡ t j
put-other t id j row ne = rw ne refl

module _ (orders : Table OrderRow) (o : ℕ) (row : OrderRow) where
  pub Waits-other : (o' : ℕ) → (o' == o) ≡ false → Waits orders o' → Waits (put orders o row) o'
  Waits-other o' ne (r, found, w) = (r, put-other orders o o' row ne ∙ found, w)

  pub Waits-back : (o' : ℕ) → (o' == o) ≡ false → Waits (put orders o row) o' → Waits orders o'
  Waits-back o' ne (r, found, w) = (r, sym (put-other orders o o' row ne) ∙ found, w)

  pub Waits-here : is_proof_submitted row.status ≡ true → Waits (put orders o row) o
  Waits-here w = (row, put-here orders o row, w)

  pub not_Waits :
      (o' : ℕ)
      → is_proof_submitted row.status ≡ false
      → (o' == o) ≡ true
      → Waits (put orders o row) o'
      → ⊥
  not_Waits o' over same (r, found, w) =
      let here : put orders o row o' ≡ some row = rw same refl in
      let bad : false ≡ true =
        sym over
        ∙ ap (λ (x : OrderRow). is_proof_submitted x.status) (some-injective _ _ (sym here ∙ found))
        ∙ w in
      cc

-- A change of an order that was not under review and is not.
pub IsLinked-elsewhere :
    (orders : Table OrderRow) (proofs : Table ProofRow) (o : ℕ) (row : OrderRow)
    → (Waits orders o → ⊥)
    → is_proof_submitted row.status ≡ false
    → IsLinked orders proofs
    → IsLinked (put orders o row) proofs
IsLinked-elsewhere orders proofs o row idle over l = record {
  waits = λ id o' p. elim (Bool-cases (o' == o)) [
    | inl same ↦ absurd (idle (subst (Waits orders) (==→eq o' o same) (l.waits id o' p)))
    | inr ne ↦ Waits-other orders o row o' ne (l.waits id o' p)
  ];
  pends = λ o' w. elim (Bool-cases (o' == o)) [
    | inl same ↦ absurd (not_Waits orders o row o' over same w)
    | inr ne ↦ l.pends o' (Waits-back orders o row o' ne w)
  ];
  only = l.only;
}

module _ (proofs : Table ProofRow) (id : ℕ) (p : ProofRow) where
  pub Pends-other : (j o : ℕ) → (j == id) ≡ false → Pends proofs j o → Pends (put proofs id p) j o
  Pends-other j o ne (q, found, w, of_o) = (q, put-other proofs id j p ne ∙ found, w, of_o)

  pub Pends-back : (j o : ℕ) → (j == id) ≡ false → Pends (put proofs id p) j o → Pends proofs j o
  Pends-back j o ne (q, found, w, of_o) = (q, sym (put-other proofs id j p ne) ∙ found, w, of_o)

  -- The row that was written is the one that is found.
  pub Pends-row :
      (j o : ℕ)
      → (j == id) ≡ true
      → Pends (put proofs id p) j o
      → (is_submitted p.status ≡ true) × (p.reg_order_id ≡ some o)
  Pends-row j o same (q, found, w, of_o) =
      let here : put proofs id p j ≡ some p = rw same refl in
      let eq : p ≡ q = some-injective _ _ (sym here ∙ found) in
      (
        ap (λ (x : ProofRow). is_submitted x.status) eq ∙ w,
        ap (λ (x : ProofRow). x.reg_order_id) eq ∙ of_o,
      )
