-- ===== src/Registration/Create/Fresh.antt =====
-- The seats that a new order holds.
use run.Base.{
  ℕ, ◌+◌, ◌<◌, ◌≡◌, refl, sym, ◌∙◌, ap, true, false, ◌&&◌, Option, none, some, List, [], ◌∷◌, ◌++◌,
  map, ◌==◌, arith, if◌then◌else◌, count_if, count_if-append, All, Bool-cases, inl, inr,
}
use run.Platform.Table.{Table, put}
use run.Pricing.Counter.{Counter, Counts, fits, add_reserved, reserved_of, used_of}
use run.Pricing.Counter.Apply.{map_row}
use run.Pricing.Quote.{ParticipantQuote}
use run.Store.{OrderRow, ReservationState, reserved, ParticipantRow}
use run.Registration.Held.{held, is_state, order_is}
use run.Registration.Consistent.{IsBalanced, within}
use run.Registration.Create.{
  ResolvedParticipant, participant_row, participant_rows, hash_of, others_of,
}

-- No participant names the id of the order.
abbrev pub IsFresh : ℕ → List ParticipantRow → Type 0
IsFresh o ps = All (λ p. (p.order_id == o) ≡ false) ps

module _ (key : ParticipantRow → ℕ) where
  held-fresh :
      (st : ReservationState) (k o : ℕ) (row : OrderRow) (orders : Table OrderRow)
      (ps : List ParticipantRow)
      → IsFresh o ps
      → held key st (put orders o row) k ps ≡ held key st orders k ps
  held-fresh st k o row orders [] h = refl
  held-fresh st k o row orders (p ∷ ps) h = ground (arith, h.0, held-fresh st k o row orders ps h.1)

  module _ (quoted_key : ParticipantQuote → ℕ)
      (same : (o e hash : ℕ) (q : ParticipantQuote)
        → key (participant_row o e hash q) ≡ quoted_key q) where
    held-rows :
        (st : ReservationState) (k o e : ℕ) (row : OrderRow) (orders : Table OrderRow)
        (qs : List ParticipantQuote) (parts : List ResolvedParticipant)
        → row.reservation_state ≡ reserved
        → held key st (put orders o row) k (participant_rows o e qs parts)
          ≡ (if is_state st reserved then count_if (λ j. j == k) (map quoted_key qs) else 0)
    unfolding participant_rows
    held-rows st k o e row orders [] parts h = ground arith
    held-rows st k o e row orders (q ∷ qs) parts h =
        ground (
          arith,
          same o e (hash_of parts) q,
          h,
          held-rows st k o e row orders qs (others_of parts) h,
        )

    -- A new order adds its participants to the seats in its state, and no others.
    pub held-new :
        (st : ReservationState) (k o e : ℕ) (row : OrderRow) (orders : Table OrderRow)
        (qs : List ParticipantQuote) (parts : List ResolvedParticipant) (ps : List ParticipantRow)
        → row.reservation_state ≡ reserved
        → IsFresh o ps
        → held key st (put orders o row) k (participant_rows o e qs parts ++ ps)
          ≡ held key st orders k ps
            + (if is_state st reserved then count_if (λ j. j == k) (map quoted_key qs) else 0)
    held-new st k o e row orders qs parts ps h f = omega (
      arith,
      count_if-append (λ p. (key p == k) && order_is st (put orders o row p.order_id))
          (participant_rows o e qs parts) ps,
      held-rows st k o e row orders qs parts h,
      held-fresh st k o row orders ps f,
    )

-- Rows that gained reserved seats where there was room stay balanced for as many more.
pub IsBalanced-add :
    (t t' : Counts) (res con res' con' n : ℕ → ℕ)
    → IsBalanced t res con
    → ((k : ℕ) → 0 < n k → (c : Counter) × (t k ≡ some c) × (fits (n k) c ≡ true))
    → ((k : ℕ) → t' k ≡ map_row (add_reserved (n k)) (t k))
    → ((k : ℕ) → res' k ≡ res k + n k)
    → ((k : ℕ) → con' k ≡ con k)
    → IsBalanced t' res' con'
IsBalanced-add t t' res con res' con' n b room moved r u = record {
  counts_reserved = λ k.
      ap reserved_of (moved k)
      ∙ gains (n k) (t k) (room k)
      ∙ omega (arith, b.counts_reserved k, r k);
  counts_used = λ k. ap used_of (moved k) ∙ same_used (n k) (t k) ∙ b.counts_used k ∙ sym (u k);
  is_within = λ k. ap within (moved k) ∙ keeps (n k) (t k) (room k) (b.is_within k);
}
  where
    gains :
        (m : ℕ) (x : Option Counter)
        → (0 < m → (c : Counter) × (x ≡ some c) × (fits m c ≡ true))
        → reserved_of (map_row (add_reserved m) x) ≡ reserved_of x + m
    gains m none h = elim (Bool-cases (m == 0)) [
      | inl none_asked ↦ ground arith
      | inr asked ↦
          let (c, e, f) = h (ground arith) in
          let bad : ◌≡◌ {A = Option Counter} none (some c) = e in cc
    ]
    gains m (some c) h = refl

    same_used : (m : ℕ) (x : Option Counter) → used_of (map_row (add_reserved m) x) ≡ used_of x
    same_used m none = refl
    same_used m (some c) = refl

    keeps :
        (m : ℕ) (x : Option Counter)
        → (0 < m → (c : Counter) × (x ≡ some c) × (fits m c ≡ true))
        → within x ≡ true
        → within (map_row (add_reserved m) x) ≡ true
    keeps m none h w = refl
    keeps m (some c) h w = elim (Bool-cases (m == 0)) [
      | inl none_asked ↦ ground arith
      | inr asked ↦ let (d, e, f) = h (ground arith) in ground (arith, e, f)
    ]
