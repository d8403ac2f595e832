-- ===== src/Event/Validate/Creates.antt =====
-- Exactly which inputs ValidateCreate accepts.
use Prim.Native.String.{String}
use text.Mathlib.Text.{◌==◌ as str_eq}
use run.Base.{
  ℕ, ◌+◌, ◌≤◌, ◌≡◌, ◌↔◌, refl, ap, Bool, true, false, not, List, [], ◌∷◌, ◌++◌, All, arith,
  Bool-cases, inl, inr,
}
use run.Base.Int.{pos, ltb_ℤ}
use run.Platform.Apperr.{Field, field, item, ok, failed_with, add_if}
use mathlib.Core.Path.{subst}
use text.Mathlib.TextEquality.{eq_iff}
use run.Event.Validate.Patterns.{
  HasParts, HasParts-empty, IsCategoryCode, matches_slug_iff, matches_code_iff, StartsFirst,
  ends_too_early_iff,
}
use run.Event.Validate.{
  char_codes, matches_slug, matches_code, Lang, zh, en, km, CategoryInput, CreateInput,
  slug_max_len, is_none, has_code, check_names, check_slug, check_code, check_category,
  check_categories, category_name_field, name_field, validate_create,
}

append-nil : {A : Type 0} (xs ys : List A) → xs ++ ys ≡ [] → (xs ≡ []) × (ys ≡ [])
append-nil [] ys h = (refl, h)
append-nil (x ∷ xs) ys h = cc

nil-append : {A : Type 0} (xs ys : List A) → xs ≡ [] → ys ≡ [] → xs ++ ys ≡ []
nil-append [] ys e f = f
nil-append (x ∷ xs) ys e f = cc

add_if-nil : (b : Bool) (f : Field) (key : String) → add_if b f key ≡ [] → b ≡ false
add_if-nil true f key h = cc
add_if-nil false f key h = refl

failed_with-nil : (fs : List (Field × String)) → failed_with fs ≡ ok tt → fs ≡ []
failed_with-nil [] h = refl
failed_with-nil (f ∷ fs) h = cc

not-false : {b : Bool} → not b ≡ false → b ≡ true
not-false {b = true} h = refl
not-false {b = false} h = cc

-- The codes that are new after one more is seen.
abbrev AllNew : List String → List CategoryInput → Type 0
AllNew seen cs = All (λ d. has_code d.code seen ≡ false) cs

AllNew-cons :
    (code : String) (seen : List String) (cs : List CategoryInput)
    → AllNew (code ∷ seen) cs
    → All (λ d. str_eq code d.code ≡ false) cs × AllNew seen cs
AllNew-cons code seen [] h = (tt, tt)
AllNew-cons code seen (d ∷ ds) h =
    let (differ, new_codes) = AllNew-cons code seen ds h.1 in
    elim (Bool-cases (str_eq code d.code)) [
      | inl same ↦ absurd (ground (arith, same, h.0))
      | inr other ↦ ((other, differ), (ground (arith, other, h.0), new_codes))
    ]

cons-AllNew :
    (code : String) (seen : List String) (cs : List CategoryInput)
    → All (λ d. str_eq code d.code ≡ false) cs
    → AllNew seen cs
    → AllNew (code ∷ seen) cs
cons-AllNew code seen [] h k = tt
cons-AllNew code seen (d ∷ ds) h k = (ground (arith, h.0, k.0), cons-AllNew code seen ds h.1 k.1)

-- No two of the categories have one code.
abbrev pub AreDistinct : List CategoryInput → Type 0
AreDistinct [] = Unit
AreDistinct (c ∷ cs) = All (λ d. str_eq c.code d.code ≡ false) cs × AreDistinct cs

module _ (is_blank : String → Bool) (byte_length : String → ℕ) where
  abbrev pub IsNamed : (Lang → String) → Type 0
  IsNamed name = (l : Lang) → is_blank (name l) ≡ false

  pub record IsRunnable (c : CategoryInput) : Type 0 where
    pub code : IsCategoryCode (char_codes c.code)
    pub name : IsNamed c.name
    pub distance : ltb_ℤ (pos 0) c.distance_m ≡ true
    pub capacity : ltb_ℤ c.capacity (pos 1) ≡ false
    pub times : StartsFirst c.start_at c.cutoff_at

  abbrev names_of : (Lang → String) → (Lang → Field) → List (Field × String)
  names_of name at = check_names is_blank byte_length name at

  check_names-nil :
      (name : Lang → String) (at : Lang → Field) → names_of name at ≡ [] → IsNamed name
  check_names-nil name at h zh = ground (arith, h)
  check_names-nil name at h en = ground (arith, h)
  check_names-nil name at h km = ground (arith, h)

  IsNamed-check_names :
      (name : Lang → String) (at : Lang → Field) → IsNamed name → names_of name at ≡ []
  IsNamed-check_names name at h = ground (arith, h zh, h en, h km)

  abbrev code_errors : ℕ → List String → String → List (Field × String)
  code_errors i seen code = check_code is_blank byte_length i seen code

  check_code-nil :
      (i : ℕ) (seen : List String) (code : String)
      → code_errors i seen code ≡ []
      → (matches_code code ≡ true) × (has_code code seen ≡ false)
  check_code-nil i seen code h = elim (Bool-cases (matches_code code)) [
    | inl m ↦ (m, ground (arith, m))
    | inr n ↦ absurd (ground (arith, n))
  ]

  abbrev category_errors : ℕ → List String → CategoryInput → List (Field × String)
  category_errors i seen c = check_category is_blank byte_length i seen c

  check_category-nil :
      (i : ℕ) (seen : List String) (c : CategoryInput)
      → category_errors i seen c ≡ []
      → IsRunnable c × (has_code c.code seen ≡ false)
  unfolding check_category
  check_category-nil i seen c h =
      let (code, h1) = append-nil (code_errors i seen c.code) _ h in
      let (name, h2) =
        append-nil (names_of c.name (category_name_field is_blank byte_length i)) _ h1 in
      let (distance, h3) = append-nil (add_if (not (ltb_ℤ (pos 0) c.distance_m)) _ _) _ h2 in
      let (capacity, times) = append-nil (add_if (ltb_ℤ c.capacity (pos 1)) _ _) _ h3 in
      let (matches, new_code) = check_code-nil i seen c.code code in
      (
        record {
          code = (matches_code_iff c.code).0 matches;
          name = check_names-nil c.name (category_name_field is_blank byte_length i) name;
          distance = not-false (add_if-nil _ _ _ distance);
          capacity = add_if-nil _ _ _ capacity;
          times = (ends_too_early_iff c.start_at c.cutoff_at).0 (add_if-nil _ _ _ times);
        },
        new_code,
      )

  check_category-of_IsCategory :
      (i : ℕ) (seen : List String) (c : CategoryInput)
      → IsRunnable c
      → has_code c.code seen ≡ false
      → category_errors i seen c ≡ []
  unfolding check_category
  check_category-of_IsCategory i seen c h new_code =
      let at = category_name_field is_blank byte_length i in
      let coded = (matches_code_iff c.code).1 h.code in
      let in_time = (ends_too_early_iff c.start_at c.cutoff_at).1 h.times in
      nil-append _ _ (ground (arith, coded, new_code)) (
        nil-append _ _ (IsNamed-check_names c.name at h.name) (
          nil-append
            (add_if (not (ltb_ℤ (pos 0) c.distance_m)) (item "categories" i "distanceM")
              "field.must_be_positive")
            _ (ground (arith, h.distance))
            (nil-append
              (add_if (ltb_ℤ c.capacity (pos 1)) (item "categories" i "capacity")
                "field.must_be_positive")
              _ (ground (arith, h.capacity)) (ground (arith, in_time)))))

  abbrev categories_errors : ℕ → List String → List CategoryInput → List (Field × String)
  categories_errors i seen cs = check_categories is_blank byte_length i seen cs

  check_categories-nil :
      (i : ℕ) (seen : List String) (cs : List CategoryInput)
      → categories_errors i seen cs ≡ []
      → All IsRunnable cs × AllNew seen cs × AreDistinct cs
  unfolding check_categories
  check_categories-nil i seen [] h = (tt, tt, tt)
  check_categories-nil i seen (c ∷ cs) h =
      let (here, later) = append-nil (category_errors i seen c) _ h in
      let (fine, new_code) = check_category-nil i seen c here in
      let (all_fine, new_codes, distinct) = check_categories-nil (i + 1) (c.code ∷ seen) cs later in
      let (differ, new_codes') = AllNew-cons c.code seen cs new_codes in
      ((fine, all_fine), (new_code, new_codes'), (differ, distinct))

  check_categories-of_All :
      (i : ℕ) (seen : List String) (cs : List CategoryInput)
      → All IsRunnable cs
      → AllNew seen cs
      → AreDistinct cs
      → categories_errors i seen cs ≡ []
  unfolding check_categories
  check_categories-of_All i seen [] h k d = refl
  check_categories-of_All i seen (c ∷ cs) h k d =
      nil-append _ _ (check_category-of_IsCategory i seen c h.0 k.0) (
        check_categories-of_All (i + 1) (c.code ∷ seen) cs h.1 (cons-AllNew c.code seen cs d.0 k.1)
          d.1)

  abbrev pub IsSlug : String → Type 0
  IsSlug slug = (byte_length slug ≤ slug_max_len) × HasParts (char_codes slug)

  pub record IsCreatable (input : CreateInput) : Type 0 where
    pub slug : IsSlug input.slug
    pub event_type : is_none input.event_type ≡ false
    pub organizer_type : is_none input.organizer_type ≡ false
    pub name : IsNamed input.name
    pub city : is_blank input.city ≡ false
    pub race_date : is_none input.race_date ≡ false
    pub categories : All IsRunnable input.categories
    pub distinct_codes : AreDistinct input.categories

  abbrev slug_errors : String → List (Field × String)
  slug_errors slug = check_slug is_blank byte_length slug

  slug_errors-nil : (slug : String) → slug_errors slug ≡ [] → IsSlug slug
  slug_errors-nil slug h =
      let right : matches_slug slug ≡ true = ground (arith, h) in
      (ground (arith, h), (matches_slug_iff slug).0 right)

  IsSlug-slug_errors : (slug : String) → IsSlug slug → slug_errors slug ≡ []
  IsSlug-slug_errors slug h = elim (Bool-cases (str_eq slug "")) [
    | inl empty ↦
        let none_there : HasParts [] =
          subst {A = String} (λ (s : String). HasParts (char_codes s)) ((eq_iff slug "").0 empty)
            h.1 in
        absurd (HasParts-empty none_there)
    | inr there ↦ let right = (matches_slug_iff slug).1 h.1 in ground (arith, h.0, there, right)
  ]

  -- An event may be created exactly if its slug is at most 60 bytes of parts of [a-z0-9] with one hyphen
  -- between two of them, its type and organizer are known, its city, its race date and its name in each language are there, each
  -- of its categories has a code of 1 to 10 of [0-9A-Z], a name in each language, a positive distance, a
  -- positive capacity and no cutoff at or before its start, and no two categories have one code.
  pub validate_create_iff :
      (input : CreateInput)
      → (validate_create is_blank byte_length input ≡ ok tt) ↔ IsCreatable input
  unfolding validate_create
  validate_create_iff input = (there, back)
    where
      there : validate_create is_blank byte_length input ≡ ok tt → IsCreatable input
      there h =
          let (slug, h1) = append-nil (slug_errors input.slug) _ (failed_with-nil _ h) in
          let (event_type, h2) = append-nil (add_if (is_none input.event_type) _ _) _ h1 in
          let (organizer, h3) = append-nil (add_if (is_none input.organizer_type) _ _) _ h2 in
          let (name, h4) =
            append-nil (names_of input.name (name_field is_blank byte_length)) _ h3 in
          let (city, h5) = append-nil (add_if (is_blank input.city) _ _) _ h4 in
          let (race_date, categories) = append-nil (add_if (is_none input.race_date) _ _) _ h5 in
          let (fine, new_codes, distinct) = check_categories-nil 0 [] input.categories categories in
          record {
            slug = slug_errors-nil input.slug slug;
            event_type = add_if-nil _ _ _ event_type;
            organizer_type = add_if-nil _ _ _ organizer;
            name = check_names-nil input.name (name_field is_blank byte_length) name;
            city = add_if-nil _ _ _ city;
            race_date = add_if-nil _ _ _ race_date;
            categories = fine;
            distinct_codes = distinct;
          }

      all_new : (cs : List CategoryInput) → AllNew [] cs
      all_new [] = tt
      all_new (c ∷ cs) = (refl, all_new cs)

      back : IsCreatable input → validate_create is_blank byte_length input ≡ ok tt
      back h = ap failed_with (
          nil-append (slug_errors input.slug) _ (IsSlug-slug_errors input.slug h.slug) (
            nil-append (add_if (is_none input.event_type) (field "eventType") "field.invalid") _
              (ap (λ b. add_if b (field "eventType") "field.invalid") h.event_type)
              (nil-append
                (add_if (is_none input.organizer_type) (field "organizerType") "field.invalid") _
                (ap (λ b. add_if b (field "organizerType") "field.invalid") h.organizer_type)
                (nil-append (names_of input.name (name_field is_blank byte_length)) _
                  (IsNamed-check_names input.name (name_field is_blank byte_length) h.name)
                  (nil-append (add_if (is_blank input.city) (field "city") "field.required") _
                    (ap (λ b. add_if b (field "city") "field.required") h.city)
                    (nil-append
                      (add_if (is_none input.race_date) (field "raceDate") "field.required") _
                      (ap (λ b. add_if b (field "raceDate") "field.required") h.race_date)
                      (check_categories-of_All 0 [] input.categories h.categories
                        (all_new input.categories) h.distinct_codes)))))))
