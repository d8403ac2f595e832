-- ===== src/Pricing/Quote/Tiers.antt =====
-- The tiers that a quote picks have the seats that it takes of them, so `Reserve` in the same
-- transaction gets them.
use Prim.Native.String.{String}
use mathlib.Core.List.{Memᴰ}
use mathlib.Core.List.Memᴰ.{not-nil}
use mathlib.Core.Path.{subst}
use run.Base.{
  ℕ, ◌+◌, ◌<◌, ◌≡◌, refl, sym, ap, ◌∙◌, true, Option, none, some, List, [], ◌∷◌, ◌==◌,
  if◌then◌else◌, arith, All, All-append, count_if, count_if-append, Option-cases, Bool-cases, inl,
  inr, ==→eq,
}
use run.Base.Int.{pos, ltb_ℤ}
use run.Pricing.Age.{age_on}
use run.Pricing.Counter.{Counter, fits}
use run.Pricing.Tier.{TierCandidate}
use run.Pricing.Tier.Select.{select_tier-IsSelected, IsSelected, IsOnSale, HoldsIf}
use run.Pricing.Quote.{
  QuoteInput, ParticipantInput, Progress, quote_participants, quote_participant, quote_tier,
  candidates, candidates_in, joined, add_quoted, quoted_of, tier_for, check_age, min_age_of,
}
use run.Store.{Db, CategoryLink, PriceRuleRow}

-- The candidate carries the counters of its row.
abbrev FromRow : Db → TierCandidate → Type 0
FromRow db t =
    db.price_rule_counts t.price_rule_id
    ≡ some (record { limit = t.quota; used = t.used_count; reserved = t.reserved_count })

joined-FromRow :
    (db : Db) (event_id id : ℕ) (r : Option PriceRuleRow) (c : Option Counter)
    → db.price_rule_counts id ≡ c
    → All (FromRow db) (joined event_id id r c)
joined-FromRow db event_id id none c e = tt
joined-FromRow db event_id id (some r) none e = tt
joined-FromRow db event_id id (some r) (some c) e = ground arith

candidates_in-FromRow :
    (db : Db) (event_id category_id : ℕ) (ls : List CategoryLink)
    → All (FromRow db) (candidates_in db event_id category_id ls)
unfolding candidates_in
candidates_in-FromRow db event_id category_id [] = tt
candidates_in-FromRow db event_id category_id (l ∷ ls) =
    elim (Bool-cases (l.category_id == category_id)) [
      | inl here ↦ rw here (
          All-append (FromRow db) _ _
            (joined-FromRow db event_id l.price_rule_id (db.price_rules l.price_rule_id)
              (db.price_rule_counts l.price_rule_id) refl)
            (candidates_in-FromRow db event_id category_id ls))
      | inr elsewhere ↦ rw elsewhere (candidates_in-FromRow db event_id category_id ls)
    ]

candidates-FromRow :
    (db : Db) (event_id category_id : ℕ) → All (FromRow db) (candidates db event_id category_id)
unfolding candidates
candidates-FromRow db event_id category_id = candidates_in-FromRow db event_id category_id db.links

All-Mem {ℓ κ} : {A : Type ℓ} (P : A → Type κ) (x : A) (xs : List A) → All P xs → Memᴰ x xs → P x
All-Mem P x [] h m = absurd (not-nil m)
All-Mem P x (y ∷ ys) h (Memᴰ.head e) = subst P (sym e) h.0
All-Mem P x (y ∷ ys) h (Memᴰ.tail m) = All-Mem P x ys h.1 m

-- What is taken is what is quoted, and each rule has the seats that are taken of it.
pub record IsCovered (db : Db) (s : Progress) : Type 0 where
  pub counted : (k : ℕ) → s.taken k ≡ count_if (λ p. p.price_rule_id == k) s.quoted
  pub has_seats :
      (k : ℕ)
      → 0 < s.taken k
      → (c : Counter) × (db.price_rule_counts k ≡ some c) × (fits (s.taken k) c ≡ true)

one_more :
    (t : TierCandidate) (taken : ℕ → ℕ) (k : ℕ)
    → (k == t.price_rule_id) ≡ true
    → HoldsIf (λ quota. t.used_count + t.reserved_count + taken t.price_rule_id < quota) t.quota
    → fits
        (if k == t.price_rule_id then taken k + 1 else taken k)
        (record { limit = t.quota; used = t.used_count; reserved = t.reserved_count })
      ≡ true
one_more t taken k same seat =
    let e : k ≡ t.price_rule_id = ==→eq k t.price_rule_id same in ground (arith, ap taken e)

add_quoted-IsCovered :
    (db : Db) (category_id : ℕ) (t : TierCandidate) (s : Progress) (nationality : String) (now : ℕ)
    → FromRow db t
    → IsOnSale nationality now s.taken t
    → IsCovered db s
    → IsCovered db (add_quoted category_id t s)
add_quoted-IsCovered db category_id t s nationality now row on c = record {
  counted = λ k. ground (
    arith,
    c.counted k,
    count_if-append (λ p. p.price_rule_id == k) s.quoted (quoted_of category_id t ∷ []),
  );
  has_seats = λ k pos. elim (Bool-cases (k == t.price_rule_id)) [
    | inl same ↦ (
      record { limit = t.quota; used = t.used_count; reserved = t.reserved_count },
      ap db.price_rule_counts (==→eq k t.price_rule_id same) ∙ row,
      one_more t s.taken k same on.has_seat,
    )
    | inr differ ↦
        let (r, found, fit) = c.has_seats k (rw differ at pos) in (r, found, rw differ fit)
  ];
}

module _ (upper_trim : String → String) (db : Db) (input : QuoteInput) where
  quote_tier-IsCovered :
      (i category_id : ℕ) (nationality : String) (s : Progress) (r : Option TierCandidate)
      → IsCovered db s
      → IsSelected (candidates db input.event_id category_id) nationality input.now s.taken r
      → IsCovered db (quote_tier i category_id r s)
  quote_tier-IsCovered i category_id nationality s none c h = record {
    counted = c.counted;
    has_seats = c.has_seats;
  }
  quote_tier-IsCovered i category_id nationality s (some t) c (m, on, least) =
      let row = All-Mem (FromRow db) t _ (candidates-FromRow db input.event_id category_id) m in
      add_quoted-IsCovered db category_id t s nationality input.now row on c

  check_age-IsCovered :
      (i min_age : ℕ) (p : ParticipantInput) (s : Progress)
      → IsCovered db s
      → IsCovered db (check_age upper_trim db input i min_age p s)
        × ((check_age upper_trim db input i min_age p s).taken ≡ s.taken)
  check_age-IsCovered i min_age p s c =
      elim (Bool-cases (ltb_ℤ (age_on p.birth_date input.race_date) (pos min_age))) [
        | inl young ↦ rw young (record { counted = c.counted; has_seats = c.has_seats }, refl)
        | inr old ↦ rw old (c, refl)
      ]

  quote_participant-IsCovered :
      (i : ℕ) (p : ParticipantInput) (s : Progress)
      → IsCovered db s
      → IsCovered db (quote_participant upper_trim db input i p s)
  unfolding quote_participant
  quote_participant-IsCovered i p s c =
      elim (Option-cases (min_age_of db input.event_id p.category_id)) [
        | inl missing ↦
            rw (missing, quote_participant)
              (record { counted = c.counted; has_seats = c.has_seats })
        | inr (min_age, found) ↦
            let (c', same) = check_age-IsCovered i min_age p s c in
            let cands = candidates db input.event_id p.category_id in
            rw (found, quote_participant)
              (quote_tier-IsCovered i p.category_id (upper_trim p.nationality)
                (check_age upper_trim db input i min_age p s) (tier_for upper_trim db input p s) c'
                (subst
                  (λ t.
                    IsSelected cands (upper_trim p.nationality) input.now t
                      (tier_for upper_trim db input p s))
                  (sym same)
                  (select_tier-IsSelected cands (upper_trim p.nationality) input.now s.taken)))
      ]

  pub quote_participants-IsCovered :
      (i : ℕ) (ps : List ParticipantInput) (s : Progress)
      → IsCovered db s
      → IsCovered db (quote_participants upper_trim db input i ps s)
  unfolding quote_participants
  quote_participants-IsCovered i [] s c = c
  quote_participants-IsCovered i (p ∷ ps) s c =
      quote_participants-IsCovered (i + 1) ps (quote_participant upper_trim db input i p s)
        (quote_participant-IsCovered i p s c)
