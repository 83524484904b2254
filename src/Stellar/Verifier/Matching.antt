-- ===== src/Stellar/Verifier/Matching.antt =====
-- When a Horizon record matches a payment, and which record the scan picks.
use hypertron_api.Prelude.{
  String, List, [], ◌∷◌, ◌++◌, Option, none, some, Bool, true, false, not, ◌&&◌, eq_iff, all, ◌≡◌,
  ◌≢◌, ◌↔◌, ◌⊎◌, inl, inr, refl, arith, Bool-cases, ap, ◌∙◌,
}
use hypertron_api.Prelude.Text.{Text, codes, text_eq, text_eq_sound, text_eq_refl}
use hypertron_api.Amount.{decimal_string_regex, equal, compare_decimal_strings}
use hypertron_api.Amount.Compare.{IsSame, compare_decimal_strings_iff}
use hypertron_api.Stellar.Horizon.{HorizonPaymentRecord}
use hypertron_api.Stellar.Verifier.{
  StellarConfig, PaymentMatchTarget, VerifyFailureCode, no_match, tx_unsuccessful, memo_mismatch,
  matched, failed, currency_code, actual_code, expected_issuer, option_is, has, is_after, issuer_ok,
  check_record, is_hit, verify,
}

-- The record pays the invoice: to the merchant, in the asset and from the issuer that are expected,
-- the exact amount, under the memo, in a transaction that no other payment has, and in time.
pub record Matches (c : StellarConfig) (target : PaymentMatchTarget) (known : List String)
    (r : HorizonPaymentRecord) : Type 0 where
  pub successful : r.successful ≡ true
  pub destination : r.to ≡ target.destination_address
  pub asset : actual_code r ≡ currency_code target.currency
  pub issuer : r.asset_issuer ≡ expected_issuer c target.currency target.environment
  pub decimal : decimal_string_regex r.amount ≡ true
  pub target_decimal : decimal_string_regex target.amount ≡ true
  pub amount : IsSame r.amount target.amount
  pub memo : r.memo ≡ some target.link_memo
  pub fresh : has known r.transaction_hash ≡ false
  pub in_time : is_after r.created_at target.expires_at ≡ false

text_eq_iff : (s t : Text) → (text_eq s t ≡ true) ↔ (s ≡ t)
text_eq_iff s t = (text_eq_sound s t, λ e. rw e (text_eq_refl t))

issuer_ok_iff : (e a : Option String) → (issuer_ok e a ≡ true) ↔ (a ≡ e)
issuer_ok_iff none none = ground arith
issuer_ok_iff none (some a) = ground arith
issuer_ok_iff (some e) none = ground arith
issuer_ok_iff (some e) (some a) = ground (arith, eq_iff a e)

option_is_iff : (o : Option String) (s : String) → (option_is o s ≡ true) ↔ (o ≡ some s)
option_is_iff none s = ground arith
option_is_iff (some t) s = ground (arith, eq_iff t s)

compare-none :
    (a b : Text)
    → (decimal_string_regex a && decimal_string_regex b) ≡ false
    → compare_decimal_strings a b ≡ none
unfolding compare_decimal_strings
compare-none a b h = rw h

equal_iff :
    (a b : Text)
    → (compare_decimal_strings a b ≡ some equal)
      ↔ ((decimal_string_regex a ≡ true) × (decimal_string_regex b ≡ true) × IsSame a b)
equal_iff a b = elim (Bool-cases (decimal_string_regex a)) [
  | inr n ↦ ground (arith, n, compare-none a b)
  | inl va ↦ elim (Bool-cases (decimal_string_regex b)) [
    | inr n ↦ ground (arith, va, n, compare-none a b)
    | inl vb ↦ ground (arith, va, vb, (compare_decimal_strings_iff a b va vb).1)
  ]
]

module _ (c : StellarConfig) (target : PaymentMatchTarget) (known : List String) where
  -- A record is accepted exactly when it matches: successful, to the destination, in the asset and
  -- from the issuer expected, of the exact amount, under the memo, with a new hash and in time.
  pub check_record_iff :
      (r : HorizonPaymentRecord)
      → (check_record c target r known ≡ some (matched r)) ↔ Matches c target known r
  unfolding check_record
  check_record_iff r = ground (
    arith,
    text_eq_iff r.to target.destination_address,
    eq_iff (actual_code r) (currency_code target.currency),
    issuer_ok_iff (expected_issuer c target.currency target.environment) r.asset_issuer,
    equal_iff r.amount target.amount,
    option_is_iff r.memo target.link_memo,
  )

  -- A record that the scan passes over: an unsuccessful one, or one under another memo.
  abbrev pub passes : HorizonPaymentRecord → Bool
  passes r = not (is_hit target r)

  -- `r` is the first record that is successful and carries the memo.
  pub record IsFirstHit (rs : List HorizonPaymentRecord) (r : HorizonPaymentRecord) : Type 0 where
    pub before : List HorizonPaymentRecord
    pub after : List HorizonPaymentRecord
    pub split : rs ≡ before ++ r ∷ after
    pub passed : all passes before ≡ true
    pub hit : is_hit target r ≡ true

  IsFirstHit-cons :
      {q r : HorizonPaymentRecord} {rs : List HorizonPaymentRecord}
      → is_hit target q ≡ false
      → IsFirstHit rs r
      → IsFirstHit (q ∷ rs) r
  IsFirstHit-cons {q} n f = record {
    before = q ∷ f.before;
    after = f.after;
    split = ap (λ l. q ∷ l) f.split;
    passed = rw (n, f.passed);
    hit = f.hit;
  }

  -- The answer of the scan: the check of the first hit, or no match if there is none.
  verify-cases :
      (rs : List HorizonPaymentRecord)
      → ((all passes rs ≡ true)
          × (verify c target rs known
              ≡ some (failed no_match (codes "No Horizon payment matched this link memo") none)))
        ⊎ ((r : HorizonPaymentRecord) × IsFirstHit rs r
            × (verify c target rs known ≡ check_record c target r known))
  unfolding verify
  verify-cases [] = inl (refl, refl)
  verify-cases (q ∷ rs) = elim (Bool-cases (is_hit target q)) [
    | inl h ↦ inr (
      q,
      record { before = []; after = rs; split = refl; passed = refl; hit = h },
      rw (h, verify),
    )
    | inr n ↦ elim (verify-cases rs) [
      | inl (p, e) ↦ inl (rw (n, p), rw (n, verify) e)
      | inr (r, f, e) ↦ inr (r, IsFirstHit-cons n f, rw (n, verify) e)
    ]
  ]

  verify-append :
      (before after : List HorizonPaymentRecord) (r : HorizonPaymentRecord)
      → all passes before ≡ true
      → is_hit target r ≡ true
      → verify c target (before ++ r ∷ after) known ≡ check_record c target r known
  unfolding verify
  verify-append [] after r p h = rw (h, verify)
  verify-append (q ∷ qs) after r p h = ground (arith, verify-append qs after r, h)

  check_record-record :
      (q r : HorizonPaymentRecord) → check_record c target q known ≡ some (matched r) → q ≡ r
  unfolding check_record
  check_record-record q r h = ground arith

  -- The scan accepts a record exactly when it is the first successful one under the memo and it
  -- matches; a later record is never accepted, whether the first one matches or not.
  pub verify_iff :
      (rs : List HorizonPaymentRecord) (r : HorizonPaymentRecord)
      → (verify c target rs known ≡ some (matched r)) ↔ (IsFirstHit rs r × Matches c target known r)
  verify_iff rs r = (
    λ e. elim (verify-cases rs) [
      | inl (_, n) ↦ cc
      | inr (q, f, k) ↦
          let same : q ≡ r = check_record-record q r (cc) in
          (rw (← same) f, (check_record_iff r).0 (rw (← same) (cc)))
    ],
    λ p.
        rw p.0.split
          (verify-append p.0.before p.0.after r p.0.passed p.0.hit ∙ (check_record_iff r).1 p.1),
  )

  check_record-code :
      (q : HorizonPaymentRecord)
      → is_hit target q ≡ true
      → (k : VerifyFailureCode) (m : Text) (o : Option HorizonPaymentRecord)
      → check_record c target q known ≡ some (failed k m o)
      → (k ≢ no_match) × (k ≢ tx_unsuccessful) × (k ≢ memo_mismatch) × (o ≡ some q)
  unfolding check_record
  check_record-code q h k m o e = ground arith

  -- A failure of the scan is never `tx_unsuccessful` or `memo_mismatch`; it is `no_match` and no
  -- record is a successful one under the memo, or it is another code and comes with the first
  -- successful record under the memo.
  pub verify_codes :
      (rs : List HorizonPaymentRecord) (k : VerifyFailureCode) (m : Text)
      (o : Option HorizonPaymentRecord)
      → verify c target rs known ≡ some (failed k m o)
      → (k ≢ tx_unsuccessful)
        × (k ≢ memo_mismatch)
        × (((k ≡ no_match) × (all passes rs ≡ true))
            ⊎ ((k ≢ no_match) × (r : HorizonPaymentRecord) × IsFirstHit rs r × (o ≡ some r)))
  verify_codes rs k m o e = elim (verify-cases rs) [
    | inl (p, n) ↦ let same : k ≡ no_match = cc in (λ x. cc, λ x. cc, inl (same, p))
    | inr (q, f, n) ↦
        let (a, b, d, w) = check_record-code q f.hit k m o (cc) in (b, d, inr (a, q, f, w))
  ]
