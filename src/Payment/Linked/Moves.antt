-- ===== src/Payment/Linked/Moves.antt =====
-- A proof that arrives, and a proof whose review is over.
use mathlib.Core.Path.{subst}
use mathlib.Core.Option.{some-injective}
use run.Base.{
  ℕ, ◌≡◌, sym, ◌∙◌, ap, true, false, none, some, arith, Bool-cases, inl, inr, ◌==◌, ==→eq,
}
use run.Platform.Table.{Table, put}
use run.Store.{OrderRow}
use run.Registration.Orders.{is_proof_submitted}
use run.Payment.Review.{ProofRow, is_submitted}
use run.Payment.Linked.{
  Pends, Waits, IsLinked, put-here, Waits-other, Waits-back, Waits-here, not_Waits, Pends-other,
  Pends-back, Pends-row,
}

eq→== : (a b : ℕ) → a ≡ b → (a == b) ≡ true
eq→== a b h = ground (arith, h)

-- One proof is of one order.
Pends-order :
    (proofs : Table ProofRow) (id o o' : ℕ) → Pends proofs id o → Pends proofs id o' → o ≡ o'
Pends-order proofs id o o' (p, found, w, of_o) (p', found', w', of_o') = some-injective _ _ (
    sym of_o
    ∙ ap (λ (x : ProofRow). x.reg_order_id) (some-injective _ _ (sym found ∙ found'))
    ∙ of_o')

module _ (orders : Table OrderRow) (proofs : Table ProofRow) (o : ℕ) (row : OrderRow) (id : ℕ)
    (p : ProofRow) (l : IsLinked orders proofs) where
  module _ (idle : Waits orders o → ⊥) (fresh : proofs id ≡ none) (of_o : p.reg_order_id ≡ some o)
      (new_waits : is_submitted p.status ≡ true)
      (row_waits : is_proof_submitted row.status ≡ true) where
    arrived : Pends (put proofs id p) id o
    arrived = (p, put-here proofs id p, new_waits, of_o)

    of_order : (j o' : ℕ) → (j == id) ≡ true → Pends (put proofs id p) j o' → o ≡ o'
    of_order j o' same pend =
        some-injective _ _ (sym of_o ∙ (Pends-row proofs id p j o' same pend).1)

    -- An older proof is not of this order.
    older : (j o' : ℕ) → (o' == o) ≡ true → Pends proofs j o' → ⊥
    older j o' same pend = idle (subst (Waits orders) (==→eq o' o same) (l.waits j o' pend))

    not_fresh : (j o' : ℕ) → (j == id) ≡ true → Pends proofs j o' → ⊥
    not_fresh j o' same (q, found, w, of_o') =
        let bad : none ≡ some q = sym fresh ∙ ap proofs (sym (==→eq j id same)) ∙ found in cc

    arrives_only :
        (j j' o' : ℕ) → Pends (put proofs id p) j o' → Pends (put proofs id p) j' o' → j ≡ j'
    arrives_only j j' o' a b = elim (Bool-cases (j == id)) [
      | inl same ↦ elim (Bool-cases (j' == id)) [
        | inl same' ↦ ==→eq j id same ∙ sym (==→eq j' id same')
        | inr ne' ↦ absurd (
            older j' o' (eq→== o' o (sym (of_order j o' same a)))
              (Pends-back proofs id p j' o' ne' b))
      ]
      | inr ne ↦ elim (Bool-cases (j' == id)) [
        | inl same' ↦ absurd (
            older j o' (eq→== o' o (sym (of_order j' o' same' b)))
              (Pends-back proofs id p j o' ne a))
        | inr ne' ↦
            l.only j j' o' (Pends-back proofs id p j o' ne a) (Pends-back proofs id p j' o' ne' b)
      ]
    ]

    pub IsLinked-arrives : IsLinked (put orders o row) (put proofs id p)
    IsLinked-arrives = record {
      waits = λ j o' pend. elim (Bool-cases (j == id)) [
        | inl same ↦
            subst (Waits (put orders o row)) (of_order j o' same pend)
              (Waits-here orders o row row_waits)
        | inr ne ↦ elim (Bool-cases (o' == o)) [
          | inl here ↦ absurd (older j o' here (Pends-back proofs id p j o' ne pend))
          | inr other ↦
              Waits-other orders o row o' other (l.waits j o' (Pends-back proofs id p j o' ne pend))
        ]
      ];
      pends = λ o' w. elim (Bool-cases (o' == o)) [
        | inl here ↦
            (id, subst (λ (x : ℕ). Pends (put proofs id p) id x) (sym (==→eq o' o here)) arrived)
        | inr other ↦
            let (j, pend) = l.pends o' (Waits-back orders o row o' other w) in
            elim (Bool-cases (j == id)) [
              | inl same ↦ absurd (not_fresh j o' same pend)
              | inr ne ↦ (j, Pends-other proofs id p j o' ne pend)
            ]
      ];
      only = arrives_only;
    }

  module _ (reviewed : Pends proofs id o) (done : is_submitted p.status ≡ false)
      (row_done : is_proof_submitted row.status ≡ false) where
    gone : (j o' : ℕ) → (j == id) ≡ true → Pends (put proofs id p) j o' → ⊥
    gone j o' same pend =
        let bad : false ≡ true = sym done ∙ (Pends-row proofs id p j o' same pend).0 in cc

    -- Whichever proof still waits, waited before.
    before : (j o' : ℕ) → Pends (put proofs id p) j o' → ((j == id) ≡ false) × Pends proofs j o'
    before j o' pend = elim (Bool-cases (j == id)) [
      | inl same ↦ absurd (gone j o' same pend)
      | inr ne ↦ (ne, Pends-back proofs id p j o' ne pend)
    ]

    pub IsLinked-leaves : IsLinked (put orders o row) (put proofs id p)
    IsLinked-leaves = record {
      waits = λ j o' pend.
          let (ne, pend') = before j o' pend in
          elim (Bool-cases (o' == o)) [
            | inl here ↦
                let twin =
                  l.only j id o' pend'
                    (subst (λ (x : ℕ). Pends proofs id x) (sym (==→eq o' o here)) reviewed) in
                let bad : false ≡ true = sym ne ∙ eq→== j id twin in cc
            | inr other ↦ Waits-other orders o row o' other (l.waits j o' pend')
          ];
      pends = λ o' w. elim (Bool-cases (o' == o)) [
        | inl here ↦ absurd (not_Waits orders o row o' row_done here w)
        | inr other ↦
            let (j, pend) = l.pends o' (Waits-back orders o row o' other w) in
            elim (Bool-cases (j == id)) [
              | inl same ↦
                  let moved = subst (λ (x : ℕ). Pends proofs x o') (==→eq j id same) pend in
                  let eq = Pends-order proofs id o' o moved reviewed in
                  let bad : false ≡ true = sym other ∙ eq→== o' o eq in cc
              | inr ne ↦ (j, Pends-other proofs id p j o' ne pend)
            ]
      ];
      only = λ j j' o' a b. l.only j j' o' (before j o' a).1 (before j' o' b).1;
    }
