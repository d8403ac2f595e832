-- ===== src/Runner/Otp/Guesses.antt =====
-- What one verification takes of the guesses that are left for a number.
use Prim.Native.String.{String}
use text.Mathlib.Text.{◌==◌ as str_eq}
use text.Mathlib.TextEquality.{eq_iff}
use mathlib.Core.Path.{subst}
use mathlib.Core.Option.{some-injective}
use run.Base.{
  ℕ, ◌+◌, ◌-◌, ◌≤◌, ◌≡◌, refl, sym, ◌∙◌, ap, ◌⊎◌, inl, inr, Bool, true, false, ◌&&◌, Option, none,
  some, List, [], ◌∷◌, leb, ltb, ◌==◌, if◌then◌else◌, sum_of, arith, Bool-cases, Option-cases,
  ==_refl,
}
use run.Platform.Table.{put}
use run.Platform.Apperr.{
  Result, ok, err, Code, forbidden, otp_invalid, internal_error, in_tx, bind-ok, bind-err,
}
use run.Runner.Rows.{
  OtpRow, RunnerDb, is_active_for, set_consumed, change_otps, has_id, consume_otp, one_more_attempt,
  newer, active_otp, upsert_user, upsert_phone_user, insert_user_session, new_session,
  user_by_phone, is_active,
}
use run.Runner.Otp.{
  otp_max_attempts, Login, start_session, open_session, check_otp, verify_tx, flatten,
}

-- The guesses that are left for a number.
abbrev pub weight : String → OtpRow → ℕ
weight phone r = if is_active_for phone r then otp_max_attempts - r.attempts else 0

abbrev pub remaining : String → List OtpRow → ℕ
remaining phone rows = sum_of (weight phone) rows

remaining-change :
    (q : String) (test : OtpRow → Bool) (f : OtpRow → OtpRow) (rows : List OtpRow)
    → ((r : OtpRow) → weight q (f r) ≤ weight q r)
    → remaining q (change_otps test f rows) ≤ remaining q rows
remaining-change q test f [] h = omega arith
remaining-change q test f (r ∷ rs) h = elim (Bool-cases (test r)) [
  | inl e ↦ rw e (omega (arith, h r, remaining-change q test f rs h))
  | inr e ↦ rw e (omega (arith, remaining-change q test f rs h))
]

-- A changed row that was active and loses a guess takes it from what remains.
abbrev IsAmong : OtpRow → List OtpRow → Type 0
IsAmong r [] = ⊥
IsAmong r (x ∷ xs) = (x ≡ r) ⊎ IsAmong r xs

remaining-less :
    (q : String) (test : OtpRow → Bool) (f : OtpRow → OtpRow) (r : OtpRow) (rows : List OtpRow)
    → ((x : OtpRow) → weight q (f x) ≤ weight q x)
    → IsAmong r rows
    → test r ≡ true
    → weight q (f r) + 1 ≤ weight q r
    → remaining q (change_otps test f rows) + 1 ≤ remaining q rows
remaining-less q test f r [] h among hit less = absurd among
remaining-less q test f r (x ∷ xs) h (inl e) hit less =
    let hit' : test x ≡ true = ap test e ∙ hit in
    let less' : weight q (f x) + 1 ≤ weight q x =
      subst (λ (y : OtpRow). weight q (f y) + 1 ≤ weight q y) (sym e) less in
    rw hit' (omega (arith, less', remaining-change q test f xs h))
remaining-less q test f r (x ∷ xs) h (inr among) hit less =
    let rest = remaining-less q test f r xs h among hit less in
    elim (Bool-cases (test x)) [
      | inl e ↦ rw e (omega (arith, h x, rest))
      | inr e ↦ rw e (omega (arith, rest))
    ]

newer-some : (r s : OtpRow) (o : Option OtpRow) → newer r o ≡ some s → (r ≡ s) ⊎ (o ≡ some s)
newer-some r s none e = inl (some-injective _ _ e)
newer-some r s (some x) e = elim (Bool-cases (ltb r.created_at x.created_at)) [
  | inl later ↦ inr (rw later at e)
  | inr first ↦ inl (some-injective _ _ (rw first at e))
]

active_otp-IsAmong :
    (phone : String) (r : OtpRow) (rows : List OtpRow)
    → active_otp phone rows ≡ some r
    → IsAmong r rows × (is_active_for phone r ≡ true)
unfolding active_otp
active_otp-IsAmong phone r [] e = cc
active_otp-IsAmong phone r (x ∷ xs) e = elim (Bool-cases (is_active_for phone x)) [
  | inl act ↦ elim (newer-some x r (active_otp phone xs) (rw act at e)) [
    | inl same ↦ (inl same, ap (is_active_for phone) (sym same) ∙ act)
    | inr rest ↦ let (among, act') = active_otp-IsAmong phone r xs rest in (inr among, act')
  ]
  | inr passive ↦
      let (among, act') = active_otp-IsAmong phone r xs (rw passive at e) in (inr among, act')
]

pub set_consumed-weight : (q : String) (now : ℕ) (r : OtpRow) → weight q (set_consumed now r) ≡ 0
set_consumed-weight q now r = ground arith

one_more_attempt-weight : (q : String) (r : OtpRow) → weight q (one_more_attempt r) ≤ weight q r
one_more_attempt-weight q r = ground arith

-- The results after which the code was compared with the one that was sent.
abbrev compared_code : Code → Bool
compared_code otp_invalid = true
compared_code forbidden = true
compared_code _ = false

abbrev pub is_compared : Result ℕ → Bool
is_compared (ok user) = true
is_compared (err e) = compared_code e.code

abbrev pub cost : (hit : Bool) → Result ℕ → ℕ
cost hit r = if hit && is_compared r then 1 else 0

-- What a transaction does to the guesses that are left.
abbrev Spends : (q : String) (hit : Bool) → RunnerDb → Result (Result ℕ × RunnerDb) → Type 0
Spends q hit d (ok (r, d')) = remaining q d'.otps + cost hit r ≤ remaining q d.otps
Spends q hit d (err e) = e ≡ internal_error

Spends-flatten :
    (q : String) (hit : Bool) (d : RunnerDb) (m : RunnerDb → Result (Result ℕ × RunnerDb))
    → Spends q hit d (m d)
    → remaining q (flatten (in_tx m d)).1.otps + cost hit (flatten (in_tx m d)).0
      ≤ remaining q d.otps
Spends-flatten q hit d m h = go (m d) h
  where
    settled : Result (Result ℕ × RunnerDb) → Result ℕ × RunnerDb
    settled x = flatten (elim x as (λ _. Result (Result ℕ) × RunnerDb) [
      | ok (r, d') ↦ (ok r, d')
      | err e ↦ (err e, d)
    ])

    go :
        (x : Result (Result ℕ × RunnerDb))
        → Spends q hit d x
        → remaining q (settled x).1.otps + cost hit (settled x).0 ≤ remaining q d.otps
    go (ok (r, d')) s = s
    go (err e) s = rw s (ground arith)

upsert_phone_user-otps :
    (phone locale : String) (now new_id : ℕ) (d : RunnerDb)
    → (upsert_phone_user phone locale now new_id d).1.otps ≡ d.otps
unfolding upsert_phone_user
upsert_phone_user-otps phone locale now new_id d = go (user_by_phone phone d.users d.user_ids)
  where
    go : (o : Option ℕ) → (upsert_user phone locale now new_id o d).1.otps ≡ d.otps
    go none = refl
    go (some id) = refl

start_session-Spends :
    (q : String) (hit : Bool) (now : ℕ) (login : Login) (user : ℕ) (d d' : RunnerDb)
    → remaining q d'.otps + (if hit then 1 else 0) ≤ remaining q d.otps
    → Spends q hit d (start_session now login user d')
unfolding start_session
start_session-Spends q hit now login user d d' less =
    let insert = insert_user_session login.token (new_session user now) in
    elim (Option-cases (d'.sessions login.token)) [
      | inl fresh ↦
          let d1 : RunnerDb = record d' {
            sessions = put d'.sessions login.token (new_session user now);
          } in
          let inserted : insert d' ≡ ok (tt, d1) = rw (fresh, insert_user_session) refl in
          subst (Spends q hit d) (sym (bind-ok insert _ d' d1 tt inserted)) (ground (arith, less))
      | inr (row, used) ↦
          let failed : insert d' ≡ err internal_error = rw (used, insert_user_session) refl in
          subst (Spends q hit d) (sym (bind-err insert _ d' internal_error failed)) refl
    ]

open_session-Spends :
    (q : String) (hit : Bool) (now : ℕ) (login : Login) (p : ℕ × RunnerDb) (d : RunnerDb)
    → remaining q p.1.otps + (if hit then 1 else 0) ≤ remaining q d.otps
    → Spends q hit d (open_session now login p)
open_session-Spends q hit now login (user, d') d less =
    elim (Bool-cases (is_active (d'.users user))) [
      | inl act ↦ rw act (start_session-Spends q hit now login user d d' less)
      | inr disabled ↦ rw disabled (ground (arith, less))
    ]

-- A guess that hits a row of the number takes one from what remains.
spend :
    (q phone : String) (f : OtpRow → OtpRow) (otp : OtpRow) (rows : List OtpRow)
    → ((x : String) (r : OtpRow) → weight x (f r) ≤ weight x r)
    → IsAmong otp rows
    → weight phone (f otp) + 1 ≤ weight phone otp
    → remaining q (change_otps (has_id otp.id) f rows) + (if str_eq phone q then 1 else 0)
      ≤ remaining q rows
spend q phone f otp rows lower among less = elim (Bool-cases (str_eq phone q)) [
  | inl same ↦
      let less' : weight q (f otp) + 1 ≤ weight q otp =
        subst {A = String} (λ (x : String). weight x (f otp) + 1 ≤ weight x otp)
          ((eq_iff phone q).0 same) less in
      rw same (remaining-less q (has_id otp.id) f otp rows (lower q) among (==_refl otp.id) less')
  | inr other ↦ rw other (omega (arith, remaining-change q (has_id otp.id) f rows (lower q)))
]

check_otp-Spends :
    (itoa : ℕ → String) (q phone : String) (hash now : ℕ) (login : Login) (otp : OtpRow)
    (d : RunnerDb)
    → IsAmong otp d.otps × (is_active_for phone otp ≡ true)
    → Spends q (str_eq phone q) d (check_otp itoa phone hash now login otp d)
unfolding check_otp
check_otp-Spends itoa q phone hash now login otp d (among, act) =
    let void_less : (x : String) (r : OtpRow) → weight x (set_consumed now r) ≤ weight x r =
      λ x r. omega (arith, set_consumed-weight x now r) in
    elim (Bool-cases (leb otp.expires_at now)) [
      | inl over ↦ rw over (ground arith)
      | inr valid ↦ rw valid (elim (Bool-cases (leb otp_max_attempts otp.attempts)) [
        | inl spent ↦ rw spent (
            ground
              (arith, remaining-change q (has_id otp.id) (set_consumed now) d.otps (void_less q)))
        | inr left ↦ rw left (elim (Bool-cases (otp.code_hash == hash)) [
          | inl right ↦ rw right (
              open_session-Spends q (str_eq phone q) now login
                (upsert_phone_user phone login.locale now login.new_id (consume_otp otp.id now d)) d
                (subst
                  (λ (rows : List OtpRow).
                    remaining q rows + (if str_eq phone q then 1 else 0) ≤ remaining q d.otps)
                  (sym (
                    upsert_phone_user-otps phone login.locale now login.new_id
                      (consume_otp otp.id now d)))
                  (spend q phone (set_consumed now) otp d.otps void_less among
                    (ground (arith, act, left)))))
          | inr wrong ↦ rw wrong (
              ground (
                arith,
                spend q phone one_more_attempt otp d.otps one_more_attempt-weight among
                    (ground (arith, act, left)),
              ))
        ])
      ])
    ]

-- A transaction of VerifyPhoneCode takes one guess of its number if it compares, and none of others.
pub verify_tx-remaining :
    (itoa : ℕ → String) (q phone : String) (hash now : ℕ) (login : Login) (d : RunnerDb)
    → let after = flatten (in_tx (verify_tx itoa phone hash now login) d) in
      remaining q after.1.otps + cost (str_eq phone q) after.0 ≤ remaining q d.otps
unfolding verify_tx
verify_tx-remaining itoa q phone hash now login d =
    Spends-flatten q (str_eq phone q) d (verify_tx itoa phone hash now login)
      (elim (Option-cases (active_otp phone d.otps)) [
        | inl e ↦ rw e (ground arith)
        | inr (otp, e) ↦ rw e (
            check_otp-Spends itoa q phone hash now login otp d
              (active_otp-IsAmong phone otp d.otps e))
      ])
