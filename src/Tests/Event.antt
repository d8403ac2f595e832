-- ===== src/Tests/Event.antt =====
-- Events that are created, published and opened.
use Prim.Native.String.{String}
use run.Base.{◌≡◌, ◌<◌, ◌↔◌, false, some, List, [], ◌∷◌, All}
use run.Base.Int.{pos}
use run.Platform.Apperr.{ok}
use run.Event.Validate.{
  CategoryInput, CreateInput, Event, EventStatus, draft, published, race, official, validate_create,
  validate_for_publish, check_registration_ready,
}
use run.Event.Validate.Accepts.{IsComplete, validate_for_publish_iff, check_registration_ready_iff}
use run.Event.Validate.Creates.{IsCreatable, validate_create_iff}

abbrev ten_k : CategoryInput
ten_k = record {
  code = "10K";
  name = λ l. "Ten";
  distance_m = pos 10000;
  capacity = pos 300;
  start_at = some 50;
  cutoff_at = some 90;
}

abbrev city_run : CreateInput
city_run = record {
  slug = "city-run";
  event_type = some race;
  organizer_type = some official;
  name = λ l. "City Run";
  city = "Phnom Penh";
  race_date = some 7;
  categories = ten_k ∷ [];
}

validate_create_iff_example :
    (validate_create (λ s. false) (λ s. 8) city_run ≡ ok tt)
    ↔ IsCreatable (λ s. false) (λ s. 8) city_run
validate_create_iff_example = validate_create_iff (λ s. false) (λ s. 8) city_run

abbrev event_of : EventStatus → Event
event_of status = record {
  status = status;
  event_type = race;
  categories =
      record { code = "10K"; capacity = 300; start_at = some 50; cutoff_at = some 90 } ∷ [];
}

validate_for_publish_iff_example :
    (validate_for_publish (event_of draft) ≡ ok tt)
    ↔ ((draft ≡ draft) × (0 < 1) × All IsComplete (event_of draft).categories)
validate_for_publish_iff_example = validate_for_publish_iff (event_of draft)

check_registration_ready_iff_example :
    (check_registration_ready (event_of published) [] 1 ≡ ok tt)
    ↔ ((published ≡ published) × (race ≡ race → (◌≡◌ {A = List String} [] []) × (0 < 1)))
check_registration_ready_iff_example = check_registration_ready_iff (event_of published) [] 1
