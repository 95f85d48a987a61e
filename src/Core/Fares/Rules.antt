-- ===== src/Core/Fares/Rules.antt =====
-- Which rule governs a transfer (`ruleFor`) and which fare of it is charged (`selectFare`).
use arkade_taxi.Prelude.{
  ◌≡◌, refl, ap, subst, ◌∙◌, ◌≢◌, ◌↔◌, ◌⊎◌, inl, inr, Bool, true, false, Option, none, some, List,
  [], ◌∷◌, ok, ok-injective, arith, IsBytes, All, find, text_eq_iff, Text, Bool-cases, Option-cases,
}
use arkade_taxi.Core.Fares.{
  AssetIdRef, RuleAsset, bitcoin, asset, any_asset, AssetRule, FareOption, is_bitcoin_rule,
  is_any_rule, is_rule_of, same_asset_id, rule_for, or_else, has_id, select_from, select_fare,
}
use arkade_taxi.Core.Fares.Keys.{same_asset_id_iff}

-- An entry of a list.
abbrev pub Listed : {A : Type 0} → A → List A → Type 0
Listed a [] = ⊥
Listed a (x ∷ xs) = (x ≡ a) ⊎ Listed a xs

All-map {ℓ κ μ} :
    {A : Type ℓ} {P : A → Type κ} {Q : A → Type μ} (f : (x : A) → P x → Q x) (xs : List A)
    → All P xs
    → All Q xs
All-map f [] h = tt
All-map f (x ∷ xs) (hx, h) = (f x hx, All-map f xs h)

All-zip {ℓ κ μ ν} :
    {A : Type ℓ} {P : A → Type κ} {Q : A → Type μ} {R : A → Type ν} (f : (x : A) → P x → Q x → R x)
    (xs : List A)
    → All P xs
    → All Q xs
    → All R xs
All-zip f [] h k = tt
All-zip f (x ∷ xs) (hx, h) (kx, k) = (f x hx kx, All-zip f xs h k)

or_else-eq-none : {a b : Option AssetRule} → or_else a b ≡ none → (a ≡ none) × (b ≡ none)
or_else-eq-none {a} {b} e = ground arith

-- A test that decides `P` on each entry: what `find` with that test says of the list.
module _ {A : Type 0} (p : A → Bool) (P : A → Type 0) where
  find_sound :
      (a : A) (xs : List A)
      → All (λ x. (p x ≡ true) ↔ P x) xs
      → find p xs ≡ some a
      → Listed a xs × P a
  find_sound a [] d h = cc
  find_sound a (x ∷ xs) (dx, d) h = elim (Bool-cases (p x)) [
    | inl hit ↦ let same : x ≡ a = ground arith in (inl same, subst P same (dx.0 hit))
    | inr miss ↦ let (listed, holds) = find_sound a xs d (ground arith) in (inr listed, holds)
  ]

  find-none_iff :
      (xs : List A) → All (λ x. (p x ≡ true) ↔ P x) xs → (find p xs ≡ none) ↔ All (λ x. ¬ P x) xs
  find-none_iff [] d = (λ _. tt, λ _. refl)
  find-none_iff (x ∷ xs) (dx, d) = elim (Bool-cases (p x)) [
    | inl hit ↦ (λ e. cc, λ (hx, _). absurd (hx (dx.0 hit)))
    | inr miss ↦
        let (to, from) = find-none_iff xs d in
        (λ e. (λ hx. cc (dx.1 hx), to (rw miss at e)), λ (_, h). rw miss (from h))
  ]

-- The txids of the rules' assets are byte arrays.
abbrev pub HasBytes : RuleAsset → Type 0
HasBytes bitcoin = Unit
HasBytes (asset a) = IsBytes a.txid
HasBytes any_asset = Unit

abbrev pub IdHasBytes : Option AssetIdRef → Type 0
IdHasBytes none = Unit
IdHasBytes (some a) = IsBytes a.txid

-- What a rule covers: the bitcoin rule no asset, and `"*"` every asset but never bitcoin.
abbrev pub Covers : RuleAsset → Option AssetIdRef → Type 0
Covers i none = i ≡ bitcoin
Covers i (some a) = (i ≡ asset a) ⊎ (i ≡ any_asset)

-- The rule's asset is not the transfer's.
abbrev pub NotExact : AssetIdRef → AssetRule → Type 0
NotExact a r = r.asset_id ≢ asset a

is_bitcoin_rule_iff : (r : AssetRule) → (is_bitcoin_rule r ≡ true) ↔ (r.asset_id ≡ bitcoin)
is_bitcoin_rule_iff r = ground arith

is_any_rule_iff : (r : AssetRule) → (is_any_rule r ≡ true) ↔ (r.asset_id ≡ any_asset)
is_any_rule_iff r = ground arith

asset-injective : (a b : AssetIdRef) → asset a ≡ asset b → a ≡ b
asset-injective a b e = cc

is_rule_of_iff :
    (a : AssetIdRef) (r : AssetRule)
    → IsBytes a.txid
    → HasBytes r.asset_id
    → (is_rule_of a r ≡ true) ↔ (r.asset_id ≡ asset a)
is_rule_of_iff a r ha hr = go r.asset_id hr
  where
    go :
        (i : RuleAsset)
        → HasBytes i
        → (elim i [ bitcoin ↦ false | asset b ↦ same_asset_id b a | any_asset ↦ false ] ≡ true)
          ↔ (i ≡ asset a)
    go bitcoin h = ground arith
    go any_asset h = ground arith
    go (asset b) h =
        let (to, from) = same_asset_id_iff b a h ha in
        (λ e. ap asset (to e), λ e. from (asset-injective b a e))

-- The rule that a transfer falls under, by precedence: an exact rule, or `"*"` where no rule of the
-- list names the asset.
abbrev pub Governs : List AssetRule → Option AssetIdRef → AssetRule → Type 0
Governs rules none r = r.asset_id ≡ bitcoin
Governs rules (some a) r =
    (r.asset_id ≡ asset a) ⊎ ((r.asset_id ≡ any_asset) × All (NotExact a) rules)

module _ (rules : List AssetRule) (valid : All (λ q. HasBytes q.asset_id) rules) where
  exact_tests :
      (a : AssetIdRef)
      → IsBytes a.txid
      → All (λ q. (is_rule_of a q ≡ true) ↔ (q.asset_id ≡ asset a)) rules
  exact_tests a k = All-map (λ q h. is_rule_of_iff a q k h) rules valid

  any_tests : All (λ q. (is_any_rule q ≡ true) ↔ (q.asset_id ≡ any_asset)) rules
  any_tests = All-map (λ q h. is_any_rule_iff q) rules valid

  bitcoin_tests : All (λ q. (is_bitcoin_rule q ≡ true) ↔ (q.asset_id ≡ bitcoin)) rules
  bitcoin_tests = All-map (λ q h. is_bitcoin_rule_iff q) rules valid

  -- The rule found for a transfer is one of the list and governs it: for bitcoin the bitcoin rule,
  -- for an asset a rule that names it or, only where no rule of the list does, the `"*"` rule. The
  -- txids of the rules and of the transfer are byte arrays.
  pub rule_for_sound :
      (id : Option AssetIdRef) (r : AssetRule)
      → IdHasBytes id
      → rule_for rules id ≡ some r
      → Listed r rules × Governs rules id r
  unfolding rule_for
  rule_for_sound none r k e = find_sound is_bitcoin_rule _ r rules bitcoin_tests e
  rule_for_sound (some a) r k e = elim (Option-cases (find (is_rule_of a) rules)) [
    | inl missing ↦
        let (listed, any) = find_sound is_any_rule _ r rules any_tests (rw missing at e) in
        (listed, inr (any, (find-none_iff _ _ rules (exact_tests a k)).0 missing))
    | inr (q, found) ↦
        let (listed, exact) = find_sound _ _ r rules (exact_tests a k) (found ∙ (rw found at e)) in
        (listed, inl exact)
  ]

  -- No rule is found for a transfer exactly when none of the list covers it. The txids of the rules
  -- and of the transfer are byte arrays.
  pub rule_for-none_iff :
      (id : Option AssetIdRef)
      → IdHasBytes id
      → (rule_for rules id ≡ none) ↔ All (λ q. ¬ Covers q.asset_id id) rules
  unfolding rule_for
  rule_for-none_iff none k = find-none_iff _ _ rules bitcoin_tests
  rule_for-none_iff (some a) k =
      let (to, from) = find-none_iff _ _ rules (exact_tests a k) in
      let (to_any, from_any) = find-none_iff _ _ rules any_tests in
      (
        λ e.
            let (no_exact, no_any) = or_else-eq-none e in
            All-zip (λ q h h' c. elim c [ inl i ↦ h i | inr i ↦ h' i ]) rules (to no_exact)
              (to_any no_any),
        λ h. rw (
          from (All-map (λ q c i. c (inl i)) rules h),
          from_any (All-map (λ q c i. c (inr i)) rules h),
        ),
      )

-- The option of a rule that a request names, or the first where it names none.
abbrev pub Offers : AssetRule → Option Text → FareOption → Type 0
Offers rule none f = (fs : List FareOption) × (rule.fares ≡ f ∷ fs)
Offers rule (some id) f = Listed f rule.fares × (f.id ≡ id)

id_tests : (id : Text) (fs : List FareOption) → All (λ f. (has_id id f ≡ true) ↔ (f.id ≡ id)) fs
id_tests id [] = tt
id_tests id (f ∷ fs) = (text_eq_iff f.id id, id_tests id fs)

select_from_sound :
    (fs : List FareOption) (id : Text) (f : FareOption)
    → select_from fs (some id) ≡ ok f
    → Listed f fs × (f.id ≡ id)
unfolding select_from
select_from_sound [] id f e = cc
select_from_sound (g ∷ fs) id f e =
    find_sound (has_id id) (λ f. f.id ≡ id) f (g ∷ fs) (id_tests id (g ∷ fs)) (ground arith)

select_first_sound :
    (fs : List FareOption) (f : FareOption)
    → select_from fs none ≡ ok f
    → (rest : List FareOption) × (fs ≡ f ∷ rest)
unfolding select_from
select_first_sound [] f e = cc
select_first_sound (g ∷ fs) f e = (fs, ap (λ h. h ∷ fs) (ok-injective e))

-- The option chosen is one of the rule's with the id asked for, or the first of the rule's where no
-- id was asked for: a named fare is never replaced by another.
pub select_fare_sound :
    (rule : AssetRule) (id : Option Text) (f : FareOption)
    → select_fare rule id ≡ ok f
    → Offers rule id f
unfolding select_fare
select_fare_sound rule none f e = select_first_sound rule.fares f e
select_fare_sound rule (some id) f e = select_from_sound rule.fares id f e
