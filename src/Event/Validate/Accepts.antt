-- ===== src/Event/Validate/Accepts.antt =====
-- Exactly which events and inputs the validations accept.
use Prim.Native.String.{String}
use run.Base.{ℕ, ◌<◌, ◌≡◌, ◌↔◌, refl, ap, Option, none, some, List, [], ◌∷◌, length, All, arith}
use run.Platform.Apperr.{ok}
use run.Event.Validate.{
  Category, Event, EventStatus, draft, published, EventType, race, free_activity, missing_of,
  problems_of, validate_for_publish, check_registration_ready, unless_problems,
}

-- A category that may be published: it has seats, a start and a cutoff after it.
abbrev pub IsComplete : Category → Type 0
IsComplete c =
    (0 < c.capacity) × (s : ℕ) × (e : ℕ) × (c.start_at ≡ some s) × (c.cutoff_at ≡ some e) × (s < e)

IsComplete-missing_of : (c : Category) → IsComplete c → missing_of c ≡ []
IsComplete-missing_of c (seats, s, e, start, end_, later) = ground (arith, start, end_, later)

missing_of-IsComplete : (c : Category) → missing_of c ≡ [] → IsComplete c
missing_of-IsComplete c h = go c c.start_at c.cutoff_at refl refl h
  where
    go :
        (c : Category) (x y : Option ℕ)
        → c.start_at ≡ x
        → c.cutoff_at ≡ y
        → missing_of c ≡ []
        → IsComplete c
    go c none y e f h = absurd (ground arith)
    go c (some s) none e f h = absurd (ground arith)
    go c (some s) (some t) e f h = (ground arith, s, t, e, f, ground arith)

problems_of-nil : (cs : List Category) → problems_of cs ≡ [] → All IsComplete cs
unfolding problems_of
problems_of-nil [] h = tt
problems_of-nil (c ∷ cs) h =
    (missing_of-IsComplete c (ground arith), problems_of-nil cs (ground arith))

All-problems_of : (cs : List Category) → All IsComplete cs → problems_of cs ≡ []
unfolding problems_of
All-problems_of [] h = refl
All-problems_of (c ∷ cs) h = ground (arith, IsComplete-missing_of c h.0, All-problems_of cs h.1)

unless_problems-nil : (ps : List (String × List String)) → unless_problems ps ≡ ok tt → ps ≡ []
unless_problems-nil [] h = refl
unless_problems-nil (p ∷ ps) h = cc

-- An event passes the check before its publication exactly if it is a draft with at least one category,
-- and each of its categories has seats, a start and a cutoff after the start.
pub validate_for_publish_iff :
    (e : Event)
    → (validate_for_publish e ≡ ok tt)
      ↔ ((e.status ≡ draft) × (0 < length e.categories) × All IsComplete e.categories)
unfolding validate_for_publish problems_of
validate_for_publish_iff e = go e.status e.categories
  where
    go :
        (st : EventStatus) (cs : List Category)
        → (validate_for_publish (record { status = st; event_type = e.event_type; categories = cs })
            ≡ ok tt)
          ↔ ((st ≡ draft) × (0 < length cs) × All IsComplete cs)
    go published cs = ((λ h. cc), (λ h. cc))
    go draft [] = ((λ h. cc), (λ h. absurd (omega arith)))
    go draft (c ∷ cs) = (
      (λ h.
          let none_missing = unless_problems-nil (problems_of (c ∷ cs)) h in
          (refl, omega arith, problems_of-nil (c ∷ cs) none_missing)),
      (λ h. let e = All-problems_of (c ∷ cs) h.2 in ap unless_problems e),
    )

-- Registration may be opened exactly if the event is published and, for a race, every category has a
-- price rule and there is an account to pay to.
pub check_registration_ready_iff :
    (e : Event) (without : List String) (usable : ℕ)
    → (check_registration_ready e without usable ≡ ok tt)
      ↔ ((e.status ≡ published) × (e.event_type ≡ race → (without ≡ []) × (0 < usable)))
unfolding check_registration_ready
check_registration_ready_iff e without usable = go e.status e.event_type without
  where
    go :
        (st : EventStatus) (t : EventType) (ws : List String)
        → (check_registration_ready
              (record { status = st; event_type = t; categories = e.categories })
              ws
              usable
            ≡ ok tt)
          ↔ ((st ≡ published) × (t ≡ race → (ws ≡ []) × (0 < usable)))
    go draft race [] = ((λ h. cc), (λ h. cc))
    go draft race (w ∷ ws) = ((λ h. cc), (λ h. cc))
    go draft free_activity ws = ((λ h. cc), (λ h. cc))
    go published race [] = (
      (λ h. (refl, λ k. (refl, ground arith))),
      (λ h. let some_account = (h.1 refl).1 in ground arith),
    )
    go published race (w ∷ ws) = ((λ h. cc), (λ h. let none_left = (h.1 refl).0 in cc))
    go published free_activity ws = ((λ h. (refl, λ k. cc)), (λ h. refl))
