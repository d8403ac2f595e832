-- ===== src/Payment/Refs.antt =====
-- A bank reference of an account stands for one payment: no two proofs that wait or are approved name
-- it.
use Prim.Native.String.{String}
use text.Mathlib.TextEquality.{eq_iff}
use mathlib.Core.Option.{some-injective}
use run.Base.{
  ℕ, ◌≡◌, refl, sym, ◌∙◌, ap, Bool, true, false, Option, some, List, [], ◌∷◌, arith, Bool-cases,
  inl, inr, ◌==◌, ==→eq, ==_refl, contains,
}
use run.Platform.Table.{Table, put}
use run.Payment.Review.{ProofRow, is_submitted}
use run.Payment.Submit.{is_live_proof, uses_txn_ref, any_proof}

-- A proof with its reference, live in the table.
pub record Claims (proofs : Table ProofRow) (id account : ℕ) (txn_ref : String) : Type 0 where
  pub row : ProofRow
  pub found : proofs id ≡ some row
  pub live : is_live_proof row.status ≡ true
  pub of_account : row.payment_account_id ≡ account
  pub of_ref : row.bank_txn_ref ≡ txn_ref

pub record IsUnique (proofs : Table ProofRow) (ids : List ℕ) : Type 0 where
  pub listed : (id : ℕ) (p : ProofRow) → proofs id ≡ some p → contains ids id ≡ true
  pub one_claim :
      (i j account : ℕ) (txn_ref : String)
      → Claims proofs i account txn_ref
      → Claims proofs j account txn_ref
      → i ≡ j

any_proof-true :
    (test : Option ProofRow → Bool) (proofs : Table ProofRow) (ids : List ℕ) (j : ℕ)
    → contains ids j ≡ true
    → test (proofs j) ≡ true
    → any_proof test proofs ids ≡ true
unfolding any_proof
any_proof-true test proofs [] j there hit = cc
any_proof-true test proofs (i ∷ ids) j there hit = elim (Bool-cases (i == j)) [
  | inl same ↦
      let here : test (proofs i) ≡ true = ap (λ (x : ℕ). test (proofs x)) (==→eq i j same) ∙ hit in
      rw here refl
  | inr ne ↦
      let rest = any_proof-true test proofs ids j (rw ne at there) hit in rw rest (ground arith)
]

module _ (proofs : Table ProofRow) (id : ℕ) (p : ProofRow) where
  Claims-back :
      (j account : ℕ) (txn_ref : String)
      → (j == id) ≡ false
      → Claims (put proofs id p) j account txn_ref
      → Claims proofs j account txn_ref
  Claims-back j account txn_ref ne c =
      let there : put proofs id p j ≡ proofs j = rw ne refl in
      record {
        row = c.row;
        found = sym there ∙ c.found;
        live = c.live;
        of_account = c.of_account;
        of_ref = c.of_ref;
      }

  Claims-row :
      (j account : ℕ) (txn_ref : String)
      → (j == id) ≡ true
      → (c : Claims (put proofs id p) j account txn_ref) → p ≡ c.row
  Claims-row j account txn_ref same c =
      let here : put proofs id p j ≡ some p = rw same refl in
      some-injective _ _ (sym here ∙ c.found)

  listed_put :
      (ids : List ℕ)
      → IsUnique proofs ids
      → (j : ℕ) (q : ProofRow) → put proofs id p j ≡ some q
      → contains (id ∷ ids) j ≡ true
  listed_put ids u j q found = elim (Bool-cases (j == id)) [
    | inl same ↦ rw (==→eq j id same) (rw (==_refl id) refl)
    | inr ne ↦
        let there : put proofs id p j ≡ proofs j = rw ne refl in
        rw (u.listed j q (sym there ∙ found)) (ground arith)
  ]

uses_txn_ref-Claims :
    (proofs : Table ProofRow) (j account : ℕ) (txn_ref : String)
    → Claims proofs j account txn_ref
    → uses_txn_ref account txn_ref (proofs j) ≡ true
uses_txn_ref-Claims proofs j account txn_ref c =
    let same_ref = (eq_iff c.row.bank_txn_ref txn_ref).1 c.of_ref in
    let same_account : (c.row.payment_account_id == account) ≡ true =
      ground (arith, c.of_account) in
    rw c.found (rw (c.live, same_account, same_ref) refl)

-- A proof that arrives with a reference that no live proof names.
pub IsUnique-arrives :
    (proofs : Table ProofRow) (ids : List ℕ) (id : ℕ) (p : ProofRow)
    → IsUnique proofs ids
    → any_proof (uses_txn_ref p.payment_account_id p.bank_txn_ref) proofs ids ≡ false
    → IsUnique (put proofs id p) (id ∷ ids)
IsUnique-arrives proofs ids id p u free = record {
  listed = listed_put proofs id p ids u;
  one_claim = λ i j account txn_ref a b. elim (Bool-cases (i == id)) [
    | inl first ↦ elim (Bool-cases (j == id)) [
      | inl second ↦ ==→eq i id first ∙ sym (==→eq j id second)
      | inr ne ↦ absurd (no_other i j account txn_ref first ne a b)
    ]
    | inr ne ↦ elim (Bool-cases (j == id)) [
      | inl second ↦ absurd (no_other j i account txn_ref second ne b a)
      | inr ne' ↦
          u.one_claim i j account txn_ref (Claims-back proofs id p i account txn_ref ne a)
            (Claims-back proofs id p j account txn_ref ne' b)
    ]
  ];
}
  where
    no_other :
        (i j account : ℕ) (txn_ref : String)
        → (i == id) ≡ true
        → (j == id) ≡ false
        → Claims (put proofs id p) i account txn_ref
        → Claims (put proofs id p) j account txn_ref
        → ⊥
    no_other i j account txn_ref same ne a b =
        let old = Claims-back proofs id p j account txn_ref ne b in
        let eq = Claims-row proofs id p i account txn_ref same a in
        let claim : Claims proofs j p.payment_account_id p.bank_txn_ref = record {
          row = old.row;
          found = old.found;
          live = old.live;
          of_account =
              old.of_account ∙ sym (ap (λ (x : ProofRow). x.payment_account_id) eq ∙ a.of_account);
          of_ref = old.of_ref ∙ sym (ap (λ (x : ProofRow). x.bank_txn_ref) eq ∙ a.of_ref);
        } in
        let used =
          any_proof-true (uses_txn_ref p.payment_account_id p.bank_txn_ref) proofs ids j
            (u.listed j old.row old.found)
            (uses_txn_ref-Claims proofs j p.payment_account_id p.bank_txn_ref claim) in
        let bad : false ≡ true = sym free ∙ used in cc

-- A live proof that keeps its account and its reference, whatever becomes of it.
pub IsUnique-changes :
    (proofs : Table ProofRow) (ids : List ℕ) (id : ℕ) (p p' : ProofRow)
    → IsUnique proofs ids
    → proofs id ≡ some p
    → is_submitted p.status ≡ true
    → p'.payment_account_id ≡ p.payment_account_id
    → p'.bank_txn_ref ≡ p.bank_txn_ref
    → IsUnique (put proofs id p') ids
IsUnique-changes proofs ids id p p' u found waits same_account same_ref = record {
  listed = λ j q stored. elim (Bool-cases (j == id)) [
    | inl same ↦ rw (==→eq j id same) (u.listed id p found)
    | inr ne ↦
        let there : put proofs id p' j ≡ proofs j = rw ne refl in u.listed j q (sym there ∙ stored)
  ];
  one_claim = λ i j account txn_ref a b.
      u.one_claim i j account txn_ref (before i account txn_ref a) (before j account txn_ref b);
}
  where
    before :
        (i account : ℕ) (txn_ref : String)
        → Claims (put proofs id p') i account txn_ref
        → Claims proofs i account txn_ref
    before i account txn_ref c = elim (Bool-cases (i == id)) [
      | inl same ↦
          let eq = Claims-row proofs id p' i account txn_ref same c in
          record {
            row = p;
            found = ap proofs (==→eq i id same) ∙ found;
            live = ground (arith, waits);
            of_account =
                sym same_account ∙ ap (λ (x : ProofRow). x.payment_account_id) eq ∙ c.of_account;
            of_ref = sym same_ref ∙ ap (λ (x : ProofRow). x.bank_txn_ref) eq ∙ c.of_ref;
          }
      | inr ne ↦ Claims-back proofs id p' i account txn_ref ne c
    ]
