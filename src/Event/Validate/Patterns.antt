-- ===== src/Event/Validate/Patterns.antt =====
-- What the two patterns of validate.go say of a text.
use Prim.Native.String.{String}
use mathlib.Core.Path.{subst}
use run.Base.{
  sym, Option, none, some, ◌<◌, ℕ, ◌≤◌, ◌≡◌, ◌⊎◌, ◌↔◌, refl, Bool, true, false, List, [], ◌∷◌, All,
  length, arith, Bool-cases, inl, inr, ◌==◌, ==→eq,
}
use mathlib.Core.Option.{some-injective}
use run.Event.Validate.{
  ends_too_early, char_codes, is_slug_char, matches_parts, matches_slug, are_code_chars,
  matches_code,
}

abbrev pub IsSlugChar : ℕ → Type 0
IsSlugChar c = ((b'a' ≤ c) × (c ≤ b'z')) ⊎ ((b'0' ≤ c) × (c ≤ b'9'))

-- Parts of at least one character, with one hyphen between two parts.
pub data HasParts : List ℕ → Type 0 where
  ends : (c : ℕ) → IsSlugChar c → HasParts (c ∷ [])
  goes_on : (c : ℕ) (cs : List ℕ) → IsSlugChar c → HasParts cs → HasParts (c ∷ cs)
  next_part : (c : ℕ) (cs : List ℕ) → IsSlugChar c → HasParts cs → HasParts (c ∷ b'-' ∷ cs)

slug_char : (c : ℕ) → is_slug_char c ≡ true → IsSlugChar c
slug_char c h = ground arith

slug_char-true : (c : ℕ) → IsSlugChar c → is_slug_char c ≡ true
slug_char-true c h = ground arith

-- What the texts that are accepted go on with, after a character of a part or at the start of one.
abbrev Rest : (inside : Bool) → List ℕ → Type 0
Rest true cs = (c : ℕ) → IsSlugChar c → HasParts (c ∷ cs)
Rest false cs = HasParts cs

Rest-char :
    (inside : Bool) (d : ℕ) (ds : List ℕ) → IsSlugChar d → Rest true ds → Rest inside (d ∷ ds)
Rest-char true d ds p rest = λ c q. goes_on c (d ∷ ds) q (rest d p)
Rest-char false d ds p rest = rest d p

Rest-hyphen :
    (inside : Bool) (d : ℕ) (ds : List ℕ)
    → inside ≡ true
    → d ≡ b'-'
    → HasParts ds
    → Rest inside (d ∷ ds)
Rest-hyphen true d ds i e rest =
    λ c q. subst (λ (x : ℕ). HasParts (c ∷ x ∷ ds)) (sym e) (next_part c ds q rest)
Rest-hyphen false d ds i e rest = cc

matches_parts-Rest : (cs : List ℕ) (inside : Bool) → matches_parts inside cs ≡ true → Rest inside cs
unfolding matches_parts
matches_parts-Rest [] true h = λ c p. ends c p
matches_parts-Rest [] false h = cc
matches_parts-Rest (d ∷ ds) inside h = elim (Bool-cases (is_slug_char d)) [
  | inl part ↦
      let rest : matches_parts true ds ≡ true = ground (arith, h, part) in
      Rest-char inside d ds (slug_char d part) (matches_parts-Rest ds true rest)
  | inr other ↦
      let rest : ((d == b'-') ≡ true) × (inside ≡ true) × (matches_parts false ds ≡ true) =
        ground (arith, h, other) in
      Rest-hyphen inside d ds rest.1 (==→eq d b'-' rest.0) (matches_parts-Rest ds false rest.2)
]

HasParts-matches_parts :
    {cs : List ℕ} (inside : Bool) → HasParts cs → matches_parts inside cs ≡ true
unfolding matches_parts
HasParts-matches_parts inside (ends c p) = rw (slug_char-true c p) refl
HasParts-matches_parts inside (goes_on c cs p hp) =
    rw (slug_char-true c p) (HasParts-matches_parts true hp)
HasParts-matches_parts inside (next_part c cs p hp) =
    rw (slug_char-true c p) (HasParts-matches_parts false hp)

pub HasParts-empty : HasParts [] → ⊥
unfolding matches_parts
HasParts-empty h = absurd (nothing (HasParts-matches_parts false h))
  where
    nothing : matches_parts false [] ≡ true → ⊥
    nothing e = cc

pub matches_slug_iff : (slug : String) → (matches_slug slug ≡ true) ↔ HasParts (char_codes slug)
matches_slug_iff slug = (matches_parts-Rest (char_codes slug) false, HasParts-matches_parts false)

abbrev pub IsCodeChar : ℕ → Type 0
IsCodeChar c = ((b'0' ≤ c) × (c ≤ b'9')) ⊎ ((b'A' ≤ c) × (c ≤ b'Z'))

abbrev pub IsCategoryCode : List ℕ → Type 0
IsCategoryCode cs = (1 ≤ length cs) × (length cs ≤ 10) × All IsCodeChar cs

are_code_chars_iff : (cs : List ℕ) → (are_code_chars cs ≡ true) ↔ All IsCodeChar cs
are_code_chars_iff [] = (λ h. tt, λ h. refl)
are_code_chars_iff (c ∷ cs) =
    let rest = are_code_chars_iff cs in
    (λ h. (ground (arith, h), rest.0 (ground (arith, h))), λ h. ground (arith, h.0, rest.1 h.1))

pub matches_code_iff :
    (text : String) → (matches_code text ≡ true) ↔ IsCategoryCode (char_codes text)
matches_code_iff text =
    let cs = char_codes text in
    let chars = are_code_chars_iff cs in
    (
      λ h. (ground (arith, h), ground (arith, h), chars.0 (ground (arith, h))),
      λ h. ground (arith, h.0, h.1, chars.1 h.2),
    )

-- Of two times that are both there the first comes before the second.
abbrev pub StartsFirst : (starts ends_at : Option ℕ) → Type 0
StartsFirst starts ends_at = (s e : ℕ) → starts ≡ some s → ends_at ≡ some e → s < e

pub ends_too_early_iff :
    (starts ends_at : Option ℕ)
    → (ends_too_early starts ends_at ≡ false) ↔ StartsFirst starts ends_at
ends_too_early_iff none ends_at = (λ h s e f g. cc, λ h. refl)
ends_too_early_iff (some t) none = (λ h s e f g. cc, λ h. refl)
ends_too_early_iff (some t) (some u) = (
  λ h s e f g.
      let same = some-injective t s f in let same' = some-injective u e g in ground (arith, h),
  λ h. ground (arith, h t u refl refl),
)
