-- ===== src/Covenant/Params/Validity.antt =====
-- The parameters that `validateParams` accepts.
use arkade_taxi.Prelude.{
  ◌≡◌, ◌≢◌, refl, ap, subst, sym, ◌↔◌, ◌⊎◌, inl, inr, Bool, true, false, not, ◌&&◌, Option, none,
  some, List, [], ◌∷◌, Bytes, ok, >>-eq-ok, throw_if-eq-ok, All, arith, length, is_some, get_or,
  if◌then◌else◌,
}
use arkade_taxi.Prelude.Int.{ℤ, pos, ◌+ℤ◌, ◌≤ℤ◌, ◌<ℤ◌, eqb_ℤ_sound, int_laws, ltb_ℤ, leb_ℤ}
use arkade_taxi.Core.Fares.{to_recycle}
use arkade_taxi.Core.Types.{
  TimelockType, RelativeTimelock, blocks, seconds, to_sender, to_receiver, RecoveryRecipient,
  ReceiverFare, sats_units, asset_units_of, DustCovenantParams,
}
use arkade_taxi.Covenant.Params.{
  RecycleFare, every_same, equal_keys, max_i64, lockup_sats, loan_sats, recycle_fare, exit_timelock,
  type_eq, fare_units, sats_part, asset_part, check_key, check_keys, is_to_receiver, check_amounts,
  check_distinct, check_times, check_fare, validate_params,
}

every_same_refl : (a : Bytes) → every_same a a ≡ true
every_same_refl [] = refl
every_same_refl (x ∷ xs) = ground (arith, every_same_refl xs)

every_same_sound : (a b : Bytes) → length a ≡ length b → every_same a b ≡ true → a ≡ b
every_same_sound [] [] e h = refl
every_same_sound [] (y ∷ ys) e h = absurd (omega arith)
every_same_sound (x ∷ xs) [] e h = cc
every_same_sound (x ∷ xs) (y ∷ ys) e h = ground (arith, every_same_sound xs ys)

equal_keys_iff : (a b : Bytes) → (equal_keys a b ≡ true) ↔ (a ≡ b)
unfolding equal_keys
equal_keys_iff a b = (
  λ h. every_same_sound a b (ground arith) (ground arith),
  λ e. rw e (ground (arith, every_same_refl b)),
)

-- A positive number of sats, of bitcoin only.
abbrev pub IsPayment : DustCovenantParams → Option ℤ → Type 0
IsPayment p none = Unit
IsPayment p (some payment) = (p.asset_id ≡ none) × (pos 0 <ℤ payment)

-- A fare that the receiver pays out of the asset it claims, in 63 bits.
abbrev pub IsFare : DustCovenantParams → Option ReceiverFare → Type 0
IsFare p none = Unit
IsFare p (some fare) =
    (is_some p.asset_id ≡ true)
    × (p.claim_mode ≡ some to_recycle)
    × (p.recovery_recipient ≡ some to_receiver)
    × (pos 0 ≤ℤ fare_units fare)
    × (fare_units fare ≤ℤ max_i64)

-- Amounts of a covenant: one whole dust unit is lent, at least the smallest coin.
pub record HasAmounts (p : DustCovenantParams) (vtxo_min_amount : ℤ) : Type 0 where
  pub positive : pos 0 <ℤ vtxo_min_amount
  pub coin : vtxo_min_amount ≤ℤ p.dust
  pub whole : p.topup ≡ p.dust
  pub payment : IsPayment p p.payment_sats

check_amounts_iff :
    (p : DustCovenantParams) (vtxo_min_amount : ℤ)
    → (check_amounts p vtxo_min_amount ≡ ok tt) ↔ HasAmounts p vtxo_min_amount
unfolding check_amounts
check_amounts_iff p vtxo_min_amount = (sound, complete)
  where
    is_payment :
        (o : Option ℤ)
        → (is_some o && is_some p.asset_id) ≡ false
        → (is_some o && leb_ℤ (get_or o (pos 0)) (pos 0)) ≡ false
        → IsPayment p o
    is_payment none h k = tt
    is_payment (some v) h k = (ground arith, ground arith)

    payment_ok :
        (o : Option ℤ)
        → IsPayment p o
        → ((is_some o && is_some p.asset_id) ≡ false)
          × ((is_some o && leb_ℤ (get_or o (pos 0)) (pos 0)) ≡ false)
    payment_ok none h = (refl, refl)
    payment_ok (some v) h = ground arith

    sound : check_amounts p vtxo_min_amount ≡ ok tt → HasAmounts p vtxo_min_amount
    sound h = record {
      positive = ground arith;
      coin = ground arith;
      whole = eqb_ℤ_sound p.topup p.dust (ground arith);
      payment = is_payment p.payment_sats (ground arith) (ground arith);
    }

    complete : HasAmounts p vtxo_min_amount → check_amounts p vtxo_min_amount ≡ ok tt
    complete v =
        let (bitcoin, positive) = payment_ok p.payment_sats v.payment in
        ground (arith, v.whole, v.positive, v.coin, bitcoin, positive)

check_distinct_iff :
    (p : DustCovenantParams)
    → (check_distinct p ≡ ok tt) ↔ (
        (p.receiver_key ≢ p.operator_key)
        × (p.receiver_key ≢ p.sender_key)
        × (p.sender_key ≢ p.operator_key)
        × (p.sender_key ≢ p.operator_signer_key)
        × (p.receiver_key ≢ p.operator_signer_key))
unfolding check_distinct
check_distinct_iff p = ground (
  arith,
  equal_keys_iff p.receiver_key p.operator_key,
  equal_keys_iff p.receiver_key p.sender_key,
  equal_keys_iff p.sender_key p.operator_key,
  equal_keys_iff p.sender_key p.operator_signer_key,
  equal_keys_iff p.receiver_key p.operator_signer_key,
)

check_fare_iff :
    (p : DustCovenantParams) (f : Option ReceiverFare) → (check_fare p f ≡ ok tt) ↔ IsFare p f
unfolding check_fare
check_fare_iff p none = (λ _. tt, λ _. refl)
check_fare_iff p (some fare) = ground arith

type_eq_iff : (a b : TimelockType) → (type_eq a b ≡ true) ↔ (a ≡ b)
type_eq_iff a b = ground arith

exit_timelock-delay :
    (d : RelativeTimelock)
    → d.type ≡ (if ltb_ℤ d.value (pos 512) then blocks else seconds)
    → exit_timelock d.value ≡ d
unfolding exit_timelock
exit_timelock-delay d e = λ i. record { value = d.value; type = sym e i }

module _ (valid_pubkey : Bytes → Bool) (has_sequence : RelativeTimelock → Bool) where
  abbrev pub IsKey : Bytes → Type 0
  IsKey k = (length k ≡ 32) × (valid_pubkey k ≡ true)

  pub record IsCovenant (p : DustCovenantParams) (vtxo_min_amount : ℤ) : Type 0 where
    pub receiver : IsKey p.receiver_key
    pub sender : IsKey p.sender_key
    pub operator : IsKey p.operator_key
    pub signer : IsKey p.operator_signer_key
    pub amounts : HasAmounts p vtxo_min_amount
    pub receiver_operator : p.receiver_key ≢ p.operator_key
    pub receiver_sender : p.receiver_key ≢ p.sender_key
    pub sender_operator : p.sender_key ≢ p.operator_key
    pub sender_signer : p.sender_key ≢ p.operator_signer_key
    pub receiver_signer : p.receiver_key ≢ p.operator_signer_key
    pub delay_positive : pos 0 <ℤ p.exit_delay.value
    pub delay_encodable : has_sequence p.exit_delay ≡ true
    pub delay_unit :
        p.exit_delay.type ≡ (if ltb_ℤ p.exit_delay.value (pos 512) then blocks else seconds)
    pub deadline : pos 500_000_000 ≤ℤ p.locktime
    pub fare : IsFare p p.receiver_fare
    pub recovery : (p.recovery_recipient ≢ some to_receiver) ⊎ (is_some p.asset_id ≡ true)

  check_key_iff : (k : Bytes) → (check_key valid_pubkey has_sequence k ≡ ok tt) ↔ IsKey k
  unfolding check_key
  check_key_iff k = ground arith

  check_times_iff :
      (p : DustCovenantParams)
      → (check_times valid_pubkey has_sequence p ≡ ok tt) ↔ (
          (pos 0 <ℤ p.exit_delay.value)
          × (has_sequence p.exit_delay ≡ true)
          × (p.exit_delay.type ≡ (if ltb_ℤ p.exit_delay.value (pos 512) then blocks else seconds))
          × (pos 500_000_000 ≤ℤ p.locktime))
  unfolding check_times
  check_times_iff p =
      let (to, from) = type_eq_iff p.exit_delay.type (exit_timelock p.exit_delay.value).type in
      (
        λ h.
            let unit = to (ground arith) in
            (
              ground arith,
              subst (λ d. has_sequence d ≡ true) (exit_timelock-delay p.exit_delay unit)
                  (ground arith),
              unit,
              ground arith,
            ),
        λ (delay, encodable, unit, deadline).
            let encoded : has_sequence (exit_timelock p.exit_delay.value) ≡ true =
              subst (λ d. has_sequence d ≡ true) (sym (exit_timelock-delay p.exit_delay unit))
                encodable in
            ground (arith, encoded, from unit, delay, deadline),
      )

  check_keys_iff :
      (ks : List Bytes) → (check_keys valid_pubkey has_sequence ks ≡ ok tt) ↔ All IsKey ks
  unfolding check_keys
  check_keys_iff [] = (λ _. tt, λ _. refl)
  check_keys_iff (k ∷ ks) =
      let (to, from) = check_key_iff k in
      let (to_all, from_all) = check_keys_iff ks in
      (
        λ h.
            let (first, rest) = >>-eq-ok (check_key valid_pubkey has_sequence k) _ h in
            (to first, to_all rest),
        λ (hk, h). rw (from hk) (from_all h),
      )

  recovery_iff :
      (p : DustCovenantParams)
      → ((is_to_receiver p.recovery_recipient && not (is_some p.asset_id)) ≡ false)
        ↔ ((p.recovery_recipient ≢ some to_receiver) ⊎ (is_some p.asset_id ≡ true))
  recovery_iff p = go p.recovery_recipient
    where
      go :
          (r : Option RecoveryRecipient)
          → ((is_to_receiver r && not (is_some p.asset_id)) ≡ false)
            ↔ ((r ≢ some to_receiver) ⊎ (is_some p.asset_id ≡ true))
      go none = (λ _. inl (λ e. cc), λ _. refl)
      go (some to_sender) = (λ _. inl (λ e. cc), λ _. refl)
      go (some to_receiver) =
          (λ h. inr (ground arith), λ h. elim h [ inl e ↦ absurd (e refl) | inr e ↦ rw e ])

  -- The parameters are accepted exactly when they make a covenant: four 32-byte public keys, of which
  -- the sender's and the receiver's differ from each other and from both of the operator's; one whole
  -- dust unit lent, no less than the smallest coin, and a payment only beside bitcoin and positive; an
  -- exit delay that has a sequence number in the unit of its size; a deadline in the time domain; a
  -- receiver's fare only on an asset that the receiver recycles and recovers, within 63 bits; recovery
  -- by the receiver only of an asset.
  pub validate_params_iff :
      (p : DustCovenantParams) (vtxo_min_amount : ℤ)
      → (validate_params valid_pubkey has_sequence p vtxo_min_amount ≡ ok tt)
        ↔ IsCovenant p vtxo_min_amount
  unfolding validate_params
  validate_params_iff p vtxo_min_amount =
      let keys = p.receiver_key ∷ p.sender_key ∷ p.operator_key ∷ p.operator_signer_key ∷ [] in
      (
        λ h.
            let (keyed, h₁) = >>-eq-ok (check_keys valid_pubkey has_sequence keys) _ h in
            let (counted, h₂) = >>-eq-ok (check_amounts p vtxo_min_amount) _ h₁ in
            let (distinct, h₃) = >>-eq-ok (check_distinct p) _ h₂ in
            let (timed, h₄) = >>-eq-ok (check_times valid_pubkey has_sequence p) _ h₃ in
            let (fared, last) = >>-eq-ok (check_fare p p.receiver_fare) _ h₄ in
            let each = (check_keys_iff keys).0 keyed in
            let (ro, rs, so, ss, rg) = (check_distinct_iff p).0 distinct in
            let (delay, encodable, unit, deadline) = (check_times_iff p).0 timed in
            record {
              receiver = each.0;
              sender = each.1.0;
              operator = each.1.1.0;
              signer = each.1.1.1.0;
              amounts = (check_amounts_iff p vtxo_min_amount).0 counted;
              receiver_operator = ro;
              receiver_sender = rs;
              sender_operator = so;
              sender_signer = ss;
              receiver_signer = rg;
              delay_positive = delay;
              delay_encodable = encodable;
              delay_unit = unit;
              deadline = deadline;
              fare = (check_fare_iff p p.receiver_fare).0 fared;
              recovery = (recovery_iff p).0 (throw_if-eq-ok _ _ last);
            },
        λ v. rw (
          (check_keys_iff keys).1 (v.receiver, (v.sender, (v.operator, (v.signer, tt)))),
          (check_amounts_iff p vtxo_min_amount).1 v.amounts,
          (check_distinct_iff p).1 (
            v.receiver_operator, v.receiver_sender, v.sender_operator, v.sender_signer,
            v.receiver_signer,
          ),
          (check_times_iff p).1 (v.delay_positive, v.delay_encodable, v.delay_unit, v.deadline),
          (check_fare_iff p p.receiver_fare).1 v.fare,
          (recovery_iff p).1 v.recovery,
        ),
      )

-- What a recycle claim repays for a loan: the loan, and the receiver's fare beside it, which is due in sats
-- or in units of the asset.
abbrev pub Repays : Option ReceiverFare → ℤ → RecycleFare → Type 0
Repays none loan paid = (paid.operator_sats ≡ loan) × (paid.asset_fare ≡ pos 0)
Repays (some (sats_units units)) loan paid =
    (paid.operator_sats ≡ loan +ℤ units) × (paid.asset_fare ≡ pos 0)
Repays (some (asset_units_of units)) loan paid =
    (paid.operator_sats ≡ loan) × (paid.asset_fare ≡ units)

-- Of parameters that pass, the loan is the dust of the covenant. What the covenant holds is the loan and
-- the payment that was locked beside it, so never less than the loan that a refund repays. A recycle claim
-- repays the loan and the receiver's fare, in sats or in units of the asset as the fare is, so never less
-- than the loan and never a negative fare.
pub lockup_covers_loan :
    (valid_pubkey : Bytes → Bool) (has_sequence : RelativeTimelock → Bool) (p : DustCovenantParams)
    (vtxo_min_amount : ℤ)
    → validate_params valid_pubkey has_sequence p vtxo_min_amount ≡ ok tt
    → (loan_sats p ≡ p.dust)
      × (lockup_sats p ≡ loan_sats p +ℤ get_or p.payment_sats (pos 0))
      × (loan_sats p ≤ℤ lockup_sats p)
      × Repays p.receiver_fare p.dust (recycle_fare p)
      × (loan_sats p ≤ℤ (recycle_fare p).operator_sats)
      × (pos 0 ≤ℤ (recycle_fare p).asset_fare)
unfolding lockup_sats loan_sats recycle_fare
lockup_covers_loan valid_pubkey has_sequence p vtxo_min_amount h =
    let v = (validate_params_iff valid_pubkey has_sequence p vtxo_min_amount).0 h in
    let whole = v.amounts.whole in
    (
      whole,
      ap (λ s. s +ℤ get_or p.payment_sats (pos 0)) (sym whole),
      rw whole (payment-le p p.payment_sats v.amounts.payment),
      subst (λ loan. Repays p.receiver_fare loan (recycle_fare p)) whole
          (repaid p.receiver_fare p.topup),
      sats_fare-le p p.receiver_fare v.fare,
      asset_fare_nonneg p p.receiver_fare v.fare,
    )
  where
    payment-le :
        (p : DustCovenantParams) (o : Option ℤ)
        → IsPayment p o
        → p.dust ≤ℤ p.dust +ℤ get_or o (pos 0)
    payment-le p none h = omega int_laws
    payment-le p (some v) h = omega int_laws

    repaid :
        (f : Option ReceiverFare) (loan : ℤ)
        → Repays f loan (record { operator_sats = sats_part f loan; asset_fare = asset_part f })
    repaid none loan = (refl, refl)
    repaid (some (sats_units units)) loan = (refl, refl)
    repaid (some (asset_units_of units)) loan = (refl, refl)

    sats_fare-le :
        (p : DustCovenantParams) (f : Option ReceiverFare)
        → IsFare p f
        → p.topup ≤ℤ sats_part f p.topup
    sats_fare-le p none h = omega arith
    sats_fare-le p (some (sats_units u)) (_, _, _, h, _) = omega int_laws
    sats_fare-le p (some (asset_units_of u)) h = omega arith

    asset_fare_nonneg :
        (p : DustCovenantParams) (f : Option ReceiverFare) → IsFare p f → pos 0 ≤ℤ asset_part f
    asset_fare_nonneg p none h = omega arith
    asset_fare_nonneg p (some (sats_units u)) h = omega arith
    asset_fare_nonneg p (some (asset_units_of u)) (_, _, _, h, _) = omega arith
