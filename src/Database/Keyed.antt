-- ===== src/Database/Keyed.antt =====
-- The tables of packages/db/src/schema.ts that have a text as their primary key.
use arkade_taxi.Prelude.{
  ◌≡◌, refl, sym, ap, Bool, true, false, some, List, [], ◌∷◌, Text, if◌then◌else◌, ◌==◌, find, any,
  text_eq, text_eq_iff, arith, inl, inr, Bool-cases, subst, ◌∙◌, none,
}
use arkade_taxi.Database.Rows.{update_where, changes}

module _ {ℓ} {A : Type ℓ} (key : A → Text) where
  abbrev pub is_keyed_by : Text → A → Bool
  is_keyed_by k r = text_eq (key r) k

  -- No key stands twice in the table.
  abbrev pub IsKeyed : List A → Type 0
  IsKeyed [] = Unit
  IsKeyed (r ∷ rs) = (any (is_keyed_by (key r)) rs ≡ false) × IsKeyed rs

  any-counted : (p : A → Bool) (rows : List A) → (changes p rows == 1) ≡ true → any p rows ≡ true
  any-counted p [] h = cc
  any-counted p (r ∷ rs) h = elim (Bool-cases (p r)) [
    | inl hit ↦ rw hit refl
    | inr miss ↦ rw miss (any-counted p rs (rw miss at h))
  ]

  any-implies :
      (p q : A → Bool) (rows : List A)
      → ((r : A) → p r ≡ true → q r ≡ true)
      → any p rows ≡ true
      → any q rows ≡ true
  any-implies p q [] h e = cc
  any-implies p q (r ∷ rs) h e = elim (Bool-cases (p r)) [
    | inl hit ↦ rw (h r hit) refl
    | inr miss ↦ ground (arith, any-implies p q rs h (rw miss at e))
  ]

  module _ (k : Text) (p : A → Bool) (names : (r : A) → p r ≡ true → is_keyed_by k r ≡ true) where
    holds-found :
        (rows : List A) {r : A}
        → IsKeyed rows
        → find (is_keyed_by k) rows ≡ some r
        → any p rows ≡ true
        → p r ≡ true
    holds-found [] u e a = cc
    holds-found (q ∷ qs) {r} (free, u) e a = elim (Bool-cases (is_keyed_by k q)) [
      | inr miss ↦ elim (Bool-cases (p q)) [
        | inl hit ↦ absurd (ground (arith, names q hit))
        | inr no_hit ↦ holds-found qs u (rw miss at e) (rw no_hit at a)
      ]
      | inl hit ↦
          let e' = rw hit at e in
          let is_r : q ≡ r = cc in
          elim (Bool-cases (p q)) [
            | inl holds ↦ subst (λ s. p s ≡ true) is_r holds
            | inr fails ↦
                let other : any (is_keyed_by k) qs ≡ true =
                  any-implies p (is_keyed_by k) qs names (rw fails at a) in
                let none_left : any (is_keyed_by k) qs ≡ false =
                  subst (λ t. any (is_keyed_by t) qs ≡ false) ((text_eq_iff (key q) k).0 hit)
                    free in
                absurd (ground arith)
          ]
    ]

    -- An update that changes one row changes the row found under its key.
    pub counted-found :
        (rows : List A) {r : A}
        → IsKeyed rows
        → find (is_keyed_by k) rows ≡ some r
        → (changes p rows == 1) ≡ true
        → p r ≡ true
    counted-found rows u e h = holds-found rows u e (any-counted p rows h)

  -- The row found after an update that keeps the keys.
  pub find-updated :
      (k : Text) (p : A → Bool) (f : A → A) (rows : List A) {r : A}
      → ((q : A) → key (f q) ≡ key q)
      → find (is_keyed_by k) rows ≡ some r
      → find (is_keyed_by k) (update_where p f rows) ≡ some (if p r then f r else r)
  unfolding update_where
  find-updated k p f [] keeps e = cc
  find-updated k p f (q ∷ qs) {r} keeps e =
      let same_key : is_keyed_by k (if p q then f q else q) ≡ is_keyed_by k q =
        ap (λ t. text_eq t k)
          (elim (Bool-cases (p q)) [ inl hit ↦ rw hit (keeps q) | inr miss ↦ rw miss refl ]) in
      elim (Bool-cases (is_keyed_by k q)) [
        | inl hit ↦
            let e' = rw hit at e in
            let is_r : q ≡ r = cc in
            rw (same_key, hit) (ap (λ s. some (if p s then f s else s)) is_r)
        | inr miss ↦ rw (same_key, miss) (find-updated k p f qs keeps (rw miss at e))
      ]

  -- A found row on which a test fails is the only one with its key: the test holds of no row.
  pub fails-found :
      (k : Text) (p : A → Bool) (rows : List A) {r : A}
      → ((q : A) → p q ≡ true → is_keyed_by k q ≡ true)
      → IsKeyed rows
      → find (is_keyed_by k) rows ≡ some r
      → p r ≡ false
      → any p rows ≡ false
  fails-found k p rows {r} names u e h = elim (Bool-cases (any p rows)) [
    | inl hit ↦ absurd (ground (arith, holds-found k p names rows u e hit))
    | inr miss ↦ miss
  ]

  -- The row that a test finds is the one under its key.
  pub picked-found :
      (k : Text) (p : A → Bool) (rows : List A) {r : A}
      → ((q : A) → p q ≡ true → is_keyed_by k q ≡ true)
      → IsKeyed rows
      → find p rows ≡ some r
      → (find (is_keyed_by k) rows ≡ some r) × (p r ≡ true)
  picked-found k p [] names u e = cc
  picked-found k p (q ∷ qs) {r} names (free, u) e = elim (Bool-cases (p q)) [
    | inl hit ↦
        let e' = rw hit at e in
        let is_r : q ≡ r = cc in (rw (names q hit) (ap some is_r), subst (λ s. p s ≡ true) is_r hit)
    | inr miss ↦
        let (found, holds) = picked-found k p qs names u (rw miss at e) in
        elim (Bool-cases (is_keyed_by k q)) [
          | inr other ↦ (rw other found, holds)
          | inl here ↦
              let none_left : any (is_keyed_by k) qs ≡ false =
                subst (λ t. any (is_keyed_by t) qs ≡ false) ((text_eq_iff (key q) k).0 here) free in
              absurd (ground (arith, any-found k qs found))
        ]
  ]
    where
      any-found :
          (k : Text) (rows : List A) {r : A}
          → find (is_keyed_by k) rows ≡ some r
          → any (is_keyed_by k) rows ≡ true
      any-found k [] e = cc
      any-found k (q ∷ qs) e = elim (Bool-cases (is_keyed_by k q)) [
        | inl hit ↦ rw hit refl
        | inr miss ↦ rw miss (any-found k qs (rw miss at e))
      ]

  module _ (p : A → Bool) (f : A → A) (keeps : (q : A) → key (f q) ≡ key q) where
    same_key_if : (q : A) → key (if p q then f q else q) ≡ key q
    same_key_if q = elim (Bool-cases (p q)) [ inl hit ↦ rw hit (keeps q) | inr miss ↦ rw miss refl ]

    any-updated :
        (k : Text) (rows : List A)
        → any (is_keyed_by k) (update_where p f rows) ≡ any (is_keyed_by k) rows
    unfolding update_where
    any-updated k [] = refl
    any-updated k (q ∷ qs) = rw (same_key_if q, any-updated k qs) refl

    pub update_where-IsKeyed : (rows : List A) → IsKeyed rows → IsKeyed (update_where p f rows)
    unfolding update_where
    update_where-IsKeyed [] u = tt
    update_where-IsKeyed (q ∷ qs) (free, u) = (
      any-updated (key (if p q then f q else q)) qs
          ∙ subst (λ t. any (is_keyed_by t) qs ≡ false) (sym (same_key_if q)) free,
      update_where-IsKeyed qs u,
    )

pub find-none {ℓ} :
    {A : Type ℓ} (p : A → Bool) (rows : List A) → any p rows ≡ false → find p rows ≡ none
find-none p [] h = refl
find-none p (q ∷ qs) h = elim (Bool-cases (p q)) [
  | inl hit ↦ absurd (ground arith)
  | inr miss ↦ rw miss (find-none p qs (rw miss at h))
]
