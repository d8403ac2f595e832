-- ===== src/Event/Validate.antt =====
-- The validations of api/internal/event/validate.go. `is_blank` stands for the test
-- strings.TrimSpace(s) == "", `byte_length` for len. The parameters of the messages are left out.
pub mod Accepts
pub mod Creates
pub mod Patterns
use Prim.Native.Char.{code}
use Prim.Native.String.{String}
use text.Mathlib.Text.{◌==◌ as str_eq}
use run.Base.{
  ℕ, ◌+◌, Bool, true, false, not, ◌&&◌, ◌||◌, Option, none, some, List, [], ◌∷◌, ◌++◌, ltb, leb,
  ◌==◌, if◌then◌else◌, length,
}
use run.Base.Int.{ℤ, pos, ltb_ℤ, ◌≤ℤ◌}
use run.Platform.Apperr.{
  Field, field, item, Error, Result, ok, err, new, with_field, failed_with, add_if, validation,
  event_already_published, event_no_category, event_category_incomplete, registration_not_ready,
}

pub data Lang : Type 0 where
  zh en km : Lang

-- events.event_type and organizer_type; `none` in an input is any other text.
pub data EventType : Type 0 where
  race free_activity : EventType

pub data OrganizerType : Type 0 where
  official partner : OrganizerType

pub record CategoryInput : Type 0 where
  pub code : String
  pub name : Lang → String
  pub distance_m : ℤ
  pub capacity : ℤ
  pub start_at : Option ℕ
  pub cutoff_at : Option ℕ

pub record CreateInput : Type 0 where
  pub slug : String
  pub event_type : Option EventType
  pub organizer_type : Option OrganizerType
  pub name : Lang → String
  pub city : String
  pub race_date : Option ℕ
  pub categories : List CategoryInput

abbrev pub slug_max_len : ℕ
slug_max_len = 60

abbrev pub is_none : {A : Type 0} → Option A → Bool
is_none none = true
is_none (some a) = false

-- `StartAt != nil && CutoffAt != nil && !CutoffAt.After(*StartAt)`; also for the two times of
-- ValidateRegistration.
abbrev pub ends_too_early : Option ℕ → Option ℕ → Bool
ends_too_early none ends = false
ends_too_early (some start) none = false
ends_too_early (some start) (some end_) = leb end_ start

abbrev pub has_code : String → List String → Bool
has_code code [] = false
has_code code (c ∷ cs) = str_eq c code || has_code code cs

abbrev pub char_codes : String → List ℕ
char_codes String.[] = []
char_codes (String.◌∷◌ c s) = code c ∷ char_codes s

abbrev pub is_between : (low high c : ℕ) → Bool
is_between low high c = leb low c && leb c high

-- slugPattern, `^[a-z0-9]+(-[a-z0-9]+)*$`: `inside` says that the last character was one of [a-z0-9].
abbrev pub is_slug_char : ℕ → Bool
is_slug_char c = is_between b'a' b'z' c || is_between b'0' b'9' c

unfoldable pub matches_parts : (inside : Bool) → List ℕ → Bool
matches_parts inside [] = inside
matches_parts inside (c ∷ cs) =
    let on = matches_parts true cs in
    let anew = matches_parts false cs in
    if is_slug_char c then on else (c == b'-') && inside && anew

abbrev pub matches_slug : String → Bool
matches_slug slug = matches_parts false (char_codes slug)

-- categoryCodePattern, `^[0-9A-Z]{1,10}$`.
abbrev pub are_code_chars : List ℕ → Bool
are_code_chars [] = true
are_code_chars (c ∷ cs) = (is_between b'0' b'9' c || is_between b'A' b'Z' c) && are_code_chars cs

abbrev pub is_category_code : List ℕ → Bool
is_category_code cs = leb 1 (length cs) && leb (length cs) 10 && are_code_chars cs

abbrev pub matches_code : String → Bool
matches_code text = is_category_code (char_codes text)

module _ (is_blank : String → Bool) (byte_length : String → ℕ) where
  -- The loop over requiredLangs, for the name of the event or of a category.
  abbrev pub check_names : (Lang → String) → (Lang → Field) → List (Field × String)
  check_names name at =
      add_if (is_blank (name zh)) (at zh) "field.required"
      ++ (add_if (is_blank (name en)) (at en) "field.required"
          ++ add_if (is_blank (name km)) (at km) "field.required")

  abbrev pub name_field : Lang → Field
  name_field zh = field "name.zh"
  name_field en = field "name.en"
  name_field km = field "name.km"

  abbrev pub category_name_field : ℕ → Lang → Field
  category_name_field i zh = item "categories" i "name.zh"
  category_name_field i en = item "categories" i "name.en"
  category_name_field i km = item "categories" i "name.km"

  abbrev pub check_slug : String → List (Field × String)
  check_slug slug =
      if str_eq slug ""
      then (field "slug", "field.required") ∷ []
      else if ltb slug_max_len (byte_length slug)
      then (field "slug", "field.too_long") ∷ []
      else add_if (not (matches_slug slug)) (field "slug") "field.slug_format"

  abbrev pub check_code : ℕ → (seen : List String) → String → List (Field × String)
  check_code i seen code =
      if not (matches_code code)
      then (item "categories" i "code", "field.category_code_format") ∷ []
      else add_if (has_code code seen) (item "categories" i "code") "EVENT_CATEGORY_CODE_TAKEN"

  pub check_category : ℕ → (seen : List String) → CategoryInput → List (Field × String)
  check_category i seen c =
      check_code i seen c.code
      ++ (check_names c.name (category_name_field i)
          ++ (add_if (not (ltb_ℤ (pos 0) c.distance_m)) (item "categories" i "distanceM")
                "field.must_be_positive"
              ++ (add_if (ltb_ℤ c.capacity (pos 1)) (item "categories" i "capacity")
                    "field.must_be_positive"
                  ++ add_if (ends_too_early c.start_at c.cutoff_at) (item "categories" i "cutoffAt")
                      "field.cutoff_before_start")))

  -- The loop over the categories.
  pub check_categories : ℕ → (seen : List String) → List CategoryInput → List (Field × String)
  unfolding check_category
  check_categories i seen [] = []
  check_categories i seen (c ∷ cs) =
      check_category i seen c ++ check_categories (i + 1) (c.code ∷ seen) cs

  unfoldable pub validate_create : CreateInput → Result (Unit {0})
  unfolding check_categories
  validate_create input = failed_with (
      check_slug input.slug
      ++ (add_if (is_none input.event_type) (field "eventType") "field.invalid"
          ++ (add_if (is_none input.organizer_type) (field "organizerType") "field.invalid"
              ++ (check_names input.name name_field
                  ++ (add_if (is_blank input.city) (field "city") "field.required"
                      ++ (add_if (is_none input.race_date) (field "raceDate") "field.required"
                          ++ check_categories 0 [] input.categories))))))

pub data EventStatus : Type 0 where
  draft published : EventStatus

pub record Category : Type 0 where
  pub code : String
  pub capacity : ℕ
  pub start_at : Option ℕ
  pub cutoff_at : Option ℕ

pub record Event : Type 0 where
  pub status : EventStatus
  pub event_type : EventType
  pub categories : List Category

abbrev pub is_published : EventStatus → Bool
is_published draft = false
is_published published = true

abbrev pub word_if : Bool → String → List String
word_if true word = word ∷ []
word_if false word = []

-- `missing`, and `problems` with the code of each category that has some.
abbrev pub missing_of : Category → List String
missing_of c =
    word_if (leb c.capacity 0) "capacity"
    ++ (word_if (is_none c.start_at) "start_at"
        ++ (word_if (is_none c.cutoff_at) "cutoff_at"
            ++ word_if (ends_too_early c.start_at c.cutoff_at) "cutoff_before_start"))

abbrev pub add_problem :
    String → List String → List (String × List String) → List (String × List String)
add_problem code [] rest = rest
add_problem code (m ∷ ms) rest = (code, m ∷ ms) ∷ rest

pub problems_of : List Category → List (String × List String)
problems_of [] = []
problems_of (c ∷ cs) = add_problem c.code (missing_of c) (problems_of cs)

abbrev pub unless_problems : List (String × List String) → Result (Unit {0})
unless_problems [] = ok tt
unless_problems (p ∷ ps) = err (
    with_field (new 422 event_category_incomplete) (field "categories") "field.category_incomplete")

abbrev pub check_categories_complete : List Category → Result (Unit {0})
check_categories_complete [] =
    err (with_field (new 422 event_no_category) (field "categories") "EVENT_NO_CATEGORY")
check_categories_complete (c ∷ cs) = unless_problems (problems_of (c ∷ cs))

unfoldable pub validate_for_publish : Event → Result (Unit {0})
unfolding problems_of
validate_for_publish e =
    if is_published e.status
    then err (new 409 event_already_published)
    else check_categories_complete e.categories

-- ValidateRegistration.
unfoldable pub validate_registration : (opens_at closes_at : Option ℕ) → Result (Unit {0})
validate_registration opens_at closes_at =
    failed_with
      (add_if (ends_too_early opens_at closes_at) (field "closesAt") "field.ends_before_starts")

abbrev pub is_race : EventType → Bool
is_race race = true
is_race free_activity = false

abbrev pub is_empty : List String → Bool
is_empty [] = true
is_empty (x ∷ xs) = false

abbrev pub not_ready : List (Field × String) → Result (Unit {0})
not_ready [] = ok tt
not_ready (f ∷ fs) = err (record { code = registration_not_ready; status = 422; fields = f ∷ fs })

-- CheckRegistrationReady: `missing` has an entry for each field that it adds.
unfoldable pub check_registration_ready :
    Event
    → (categories_without_price_rule : List String) → (usable_accounts : ℕ) → Result (Unit {0})
check_registration_ready e without usable = not_ready (
    add_if (not (is_published e.status)) (field "status") "field.event_not_published"
    ++ (add_if (is_race e.event_type && not (is_empty without)) (field "priceRules")
          "field.missing_price_rule"
        ++ add_if (is_race e.event_type && (usable == 0)) (field "paymentAccounts")
            "field.missing_payment_account"))
