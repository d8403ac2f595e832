-- ===== src/Platform/Table.antt =====
-- A table with a primary key, as a function from the key, and the counter columns of a row.
use mathlib.Core.Option.{some-injective}
use run.Base.{
  ℕ, ◌≡◌, refl, sym, ap, inl, inr, Bool, true, Option, none, some, ◌==◌, if◌then◌else◌, Bool-cases,
}

abbrev pub Table : Type 0 → Type 0
Table Row = ℕ → Option Row

abbrev pub put : {Row : Type 0} → Table Row → ℕ → Row → Table Row
put t id row j = if j == id then some row else t j

-- `UPDATE ... SET change WHERE id = @id AND guard`: `none` is "0 rows", and the table is then as
-- before.
abbrev pub update_row :
    {Row : Type 0} → (Row → Bool) → (Row → Row) → ℕ → Table Row → Option Row → Option (Table Row)
update_row guard change id t none = none
update_row guard change id t (some row) = if guard row then some (put t id (change row)) else none

abbrev pub update_where :
    {Row : Type 0} → (Row → Bool) → (Row → Row) → ℕ → Table Row → Option (Table Row)
update_where guard change id t = update_row guard change id t (t id)

module _ {Row : Type 0} (guard : Row → Bool) (change : Row → Row) (id : ℕ) (t : Table Row) where
  -- An update that changed a row found it, with its guard met, and left all others.
  pub update_where-eq-some :
      {t' : Table Row}
      → update_where guard change id t ≡ some t'
      → (row : Row) × (t id ≡ some row)
        × (guard row ≡ true)
        × ((j : ℕ) → t' j ≡ (if j == id then some (change row) else t j))
  update_where-eq-some {t'} h = found (t id) refl h
    where
      found :
          (o : Option Row)
          → t id ≡ o
          → update_row guard change id t o ≡ some t'
          → (row : Row) × (t id ≡ some row)
            × (guard row ≡ true)
            × ((j : ℕ) → t' j ≡ (if j == id then some (change row) else t j))
      found none e h' = cc
      found (some row) e h' = elim (Bool-cases (guard row)) [
        | inl g ↦
            let same : put t id (change row) ≡ t' = some-injective _ _ (rw g at h') in
            (row, e, g, λ j. ap (λ f. f j) (sym same))
        | inr g ↦ let bad : ◌≡◌ {A = Option (Table Row)} none (some t') = rw g at h' in cc
      ]

  -- An update whose row is there with its guard met goes through.
  pub update_where-some :
      (row : Row)
      → t id ≡ some row
      → guard row ≡ true
      → update_where guard change id t ≡ some (put t id (change row))
  update_where-some row e g = rw (e, update_row) (rw g)
