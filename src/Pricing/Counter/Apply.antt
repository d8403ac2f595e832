-- ===== src/Pricing/Counter/Apply.antt =====
-- What the loops over the groups do to a table of counters, for any conditional update: what
-- changes, and exactly when they go through.
use mathlib.Core.Path.{subst}
use run.Base.{
  ℕ, ◌+◌, ◌<◌, ◌≡◌, refl, sym, ap, ◌∙◌, Bool, true, false, Option, none, some, List, [], ◌∷◌, arith,
  ◌==◌, if◌then◌else◌, Bool-cases, ==→eq, Option-cases, inl, inr,
}
use run.Platform.Apperr.{Error, ok}
use run.Platform.Table.{update_where, update_where-eq-some, update_where-some, put}
use run.Pricing.Counter.{
  Counter, Counts, fits, has_reserved, add_reserved, drop_reserved, use_reserved, SeatCount,
  apply_all,
}
use run.Pricing.Counter.Groups.{total, IsPositive, total-cons_self, total-cons_ne}

abbrev pub map_row : (Counter → Counter) → Option Counter → Option Counter
map_row f none = none
map_row f (some c) = some (f c)

-- What the three kinds of update have in common: two of them after one another are one of the sum.
pub record IsShift (admits : ℕ → Counter → Bool) (shift : ℕ → Counter → Counter) : Type 0 where
  pub shift_zero : (c : Counter) → shift 0 c ≡ c
  pub shift_add : (m n : ℕ) (c : Counter) → shift n (shift m c) ≡ shift (m + n) c
  pub admits_split :
      (m n : ℕ) (c : Counter)
      → admits (m + n) c ≡ true
      → (admits m c ≡ true) × (admits n (shift m c) ≡ true)
  pub admits_join :
      (m n : ℕ) (c : Counter)
      → admits m c ≡ true
      → admits n (shift m c) ≡ true
      → admits (m + n) c ≡ true

pub reserve_IsShift : IsShift fits add_reserved
reserve_IsShift = record {
  shift_zero = λ c. ground arith;
  shift_add = λ m n c. ground arith;
  admits_split = λ m n c h. ground arith;
  admits_join = λ m n c h k. ground arith;
}

pub consume_IsShift : IsShift has_reserved use_reserved
consume_IsShift = record {
  shift_zero = λ c. ground arith;
  shift_add = λ m n c. ground arith;
  admits_split = λ m n c h. ground arith;
  admits_join = λ m n c h k. ground arith;
}

pub release_IsShift : IsShift has_reserved drop_reserved
release_IsShift = record {
  shift_zero = λ c. ground arith;
  shift_add = λ m n c. ground arith;
  admits_split = λ m n c h. ground arith;
  admits_join = λ m n c h k. ground arith;
}

module _ (admits : ℕ → Counter → Bool) (shift : ℕ → Counter → Counter) (laws : IsShift admits shift)
    (e : Error) where
  open laws use {shift_zero, shift_add, admits_split, admits_join}

  abbrev update : (seats id : ℕ) → Counts → Option Counts
  update seats = update_where (admits seats) (shift seats)

  -- Each id that some group names has its row, which admits the seats of all its groups together.
  abbrev pub Admits : List SeatCount → Counts → Type 0
  Admits cs t =
      (j : ℕ) → 0 < total j cs → (c : Counter) × (t j ≡ some c) × (admits (total j cs) c ≡ true)

  abbrev HasRow : List SeatCount → Counts → ℕ → Type 0
  HasRow cs t j = (c : Counter) × (t j ≡ some c) × (admits (total j cs) c ≡ true)

  map_row-zero : (o : Option Counter) → o ≡ map_row (shift 0) o
  map_row-zero none = refl
  map_row-zero (some c) = cc (shift_zero c)

  map_row-add :
      (m n : ℕ) (o : Option Counter)
      → map_row (shift n) (map_row (shift m) o) ≡ map_row (shift (m + n)) o
  map_row-add m n none = refl
  map_row-add m n (some c) = cc (shift_add m n c)

  -- The seats that one group moves at the row `j`.
  abbrev at_row : SeatCount → ℕ → ℕ
  at_row c j = if c.id == j then c.seats else 0

  update-eq :
      (c : SeatCount) (t t' : Counts)
      → update c.seats c.id t ≡ some t'
      → (j : ℕ) → t' j ≡ map_row (shift (at_row c j)) (t j)
  update-eq c t t' h j =
      let (row, found, g, after) = update_where-eq-some (admits c.seats) (shift c.seats) c.id t h in
      elim (Bool-cases (c.id == j)) [
        | inl same ↦ ground (arith, after j)
        | inr differ ↦
            let other : (j == c.id) ≡ false = ground arith in
            rw differ (after j ∙ rw other (map_row-zero (t j)))
      ]

  pub apply_all-eq :
      (cs : List SeatCount) (t t' : Counts)
      → apply_all update e cs t ≡ ok t'
      → (j : ℕ) → t' j ≡ map_row (shift (total j cs)) (t j)
  unfolding apply_all
  apply_all-eq [] t t' h j = let same : t ≡ t' = cc in ap (λ f. f j) (sym same) ∙ map_row-zero (t j)
  apply_all-eq (c ∷ cs) t t' h j = elim (Option-cases (update c.seats c.id t)) [
    | inl off ↦ absurd (ground arith)
    | inr (u, found) ↦
        apply_all-eq cs u t' (ground arith) j
        ∙ ap (map_row (shift (total j cs))) (update-eq c t u found j)
        ∙ map_row-add (at_row c j) (total j cs) (t j)
  ]

  Admits-tail :
      (c : SeatCount) (cs : List SeatCount) (t : Counts) (row : Counter)
      → admits (total c.id cs) (shift c.seats row) ≡ true
      → Admits (c ∷ cs) t
      → Admits cs (put t c.id (shift c.seats row))
  Admits-tail c cs t row later a j pos = elim (Bool-cases (c.id == j)) [
    | inl same ↦ (
      shift c.seats row,
      ground arith,
      subst (λ k. admits (total k cs) (shift c.seats row) ≡ true) (==→eq _ _ same) later,
    )
    | inr differ ↦
        let n : total j (c ∷ cs) ≡ total j cs = total-cons_ne j c cs differ in
        let (old, found, g) = a j (omega arith) in
        let other : (j == c.id) ≡ false = ground arith in
        (old, rw other found, subst (λ k. admits k old ≡ true) n g)
  ]

  -- Going through is a matter of the sums for each row, whatever the order of the groups.
  pub apply_all-ok :
      (cs : List SeatCount) (t : Counts)
      → IsPositive cs
      → Admits cs t
      → (t' : Counts) × (apply_all update e cs t ≡ ok t')
  unfolding apply_all
  apply_all-ok [] t p a = (t, refl)
  apply_all-ok (c ∷ cs) t p a =
      let n : total c.id (c ∷ cs) ≡ c.seats + total c.id cs = total-cons_self c cs in
      let (row, found, g) = a c.id (omega (arith, p.0)) in
      let (here, later) =
        admits_split c.seats (total c.id cs) row (subst (λ k. admits k row ≡ true) n g) in
      let t1 = put t c.id (shift c.seats row) in
      let step = update_where-some (admits c.seats) (shift c.seats) c.id t row found here in
      let (t', rest) = apply_all-ok cs t1 p.1 (Admits-tail c cs t row later a) in
      (t', ground (arith, step, rest))

  HasRow-cons :
      (c : SeatCount) (cs : List SeatCount) (t u : Counts)
      → update c.seats c.id t ≡ some u
      → Admits cs u
      → HasRow (c ∷ cs) t c.id
  HasRow-cons c cs t u h a =
      let (row, found, here, after) =
        update_where-eq-some (admits c.seats) (shift c.seats) c.id t h in
      let n : total c.id (c ∷ cs) ≡ c.seats + total c.id cs = total-cons_self c cs in
      (row, found, subst (λ k. admits k row ≡ true) (sym n) (whole row here (after c.id)))
    where
      whole :
          (row : Counter)
          → admits c.seats row ≡ true
          → u c.id ≡ (if c.id == c.id then some (shift c.seats row) else t c.id)
          → admits (c.seats + total c.id cs) row ≡ true
      whole row here after = elim (Bool-cases (total c.id cs == 0)) [
        | inl none_left ↦
            let z : c.seats + total c.id cs ≡ c.seats = ground arith in
            subst (λ k. admits k row ≡ true) (sym z) here
        | inr some_left ↦
            let (old, found', g) = a c.id (ground arith) in
            let same : old ≡ shift c.seats row = ground arith in
            admits_join c.seats (total c.id cs) row here
              (subst (λ k. admits (total c.id cs) k ≡ true) same g)
      ]

  Admits-cons :
      (c : SeatCount) (cs : List SeatCount) (t u : Counts)
      → update c.seats c.id t ≡ some u
      → Admits cs u
      → Admits (c ∷ cs) t
  Admits-cons c cs t u h a j pos =
      let (row, found, here, after) =
        update_where-eq-some (admits c.seats) (shift c.seats) c.id t h in
      elim (Bool-cases (c.id == j)) [
        | inl same ↦ subst (HasRow (c ∷ cs) t) (==→eq _ _ same) (HasRow-cons c cs t u h a)
        | inr differ ↦
            let n : total j (c ∷ cs) ≡ total j cs = total-cons_ne j c cs differ in
            let other : (j == c.id) ≡ false = ground arith in
            let (old, found', g) = a j (omega arith) in
            (
              old,
              (rw other at (sym (after j))) ∙ found',
              subst (λ k. admits k old ≡ true) (sym n) g,
            )
      ]

  pub Admits-of_ok :
      (cs : List SeatCount) (t t' : Counts) → apply_all update e cs t ≡ ok t' → Admits cs t
  unfolding apply_all
  Admits-of_ok [] t t' h = λ j pos. absurd (omega arith)
  Admits-of_ok (c ∷ cs) t t' h = elim (Option-cases (update c.seats c.id t)) [
    | inl off ↦ absurd (ground arith)
    | inr (u, found) ↦ Admits-cons c cs t u found (Admits-of_ok cs u t' (ground arith))
  ]
