-- ===== src/Platform/Inversion.antt =====
-- The steps of a transaction taken apart when they succeeded.
use run.Base.{◌≡◌, refl, sym, ap, Bool, true, false}
use run.Platform.Apperr.{Error, Result, ok, err, guard, lift}

-- Two results of one step.
pub same_result : {S A : Type 0} {a b : A × S} → ◌≡◌ {A = Result (A × S)} (ok a) (ok b) → a ≡ b
same_result {S} {A} {a} {b} h =
    ap {A = Result (A × S)} {B = A × S} (λ r. elim r [ ok x ↦ x | err e ↦ a ]) h

pub guard-inv :
    {S : Type 0} (t : Bool) (e : Error) (s : S) (r : Unit {0} × S)
    → guard t e s ≡ ok r
    → (t ≡ true) × (r.1 ≡ s)
guard-inv {S} true e s r h = (refl, ap (λ (x : Unit {0} × S). x.1) (sym (same_result h)))
guard-inv false e s r h = cc

pub lift-inv : {S A : Type 0} (x : Result A) (s : S) (r : A × S) → lift x s ≡ ok r → r.1 ≡ s
lift-inv {S} {A} (ok u) s r h = ap (λ (y : A × S). y.1) (sym (same_result h))
lift-inv (err e) s r h = cc
