-- ===== src/Postgres/Rows.antt =====
-- Lists of rows, as the statements of bat/adapters/session_store_postgres.py filter, sort and
-- change them, beside the dictionaries of bat/adapters/session_store_memory.py.
use bat_ai.Prelude.{
  ◌≡◌, refl, sym, ap, ◌∙◌, inl, inr, Bool, true, false, ◌&&◌, not, List, [], ◌∷◌, ◌++◌, Option,
  none, some, arith, Eq, ◌==◌, ==_iff, Bool-cases, All, keep, nat_eq, string_eq,
}
use bat_ai.Prelude.Dict.{Dict, get, put, remove, values, HasDistinctKeys, Entries}
use bat_ai.Postgres.Tables.{first}
use bat_ai.Postgres.Store.{update_where}

module _ {A : Type 0} where
  pub keep-append : (p : A → Bool) (xs ys : List A) → keep p (xs ++ ys) ≡ keep p xs ++ keep p ys
  keep-append p [] ys = refl
  keep-append p (x ∷ xs) ys = elim (Bool-cases (p x)) [
    | inl e ↦ rw e (ap (λ r. x ∷ r) (keep-append p xs ys))
    | inr e ↦ rw e (keep-append p xs ys)
  ]

  -- A filter by both tests is one filter after the other.
  pub keep-keep : (p q : A → Bool) (xs : List A) → keep (λ x. p x && q x) xs ≡ keep q (keep p xs)
  keep-keep p q [] = refl
  keep-keep p q (x ∷ xs) = elim (Bool-cases (p x)) [
    | inr e ↦ rw e (keep-keep p q xs)
    | inl e ↦ elim (Bool-cases (q x)) [
      | inl f ↦ rw (e, f) (ap (λ r. x ∷ r) (keep-keep p q xs))
      | inr f ↦ rw (e, f) (keep-keep p q xs)
    ]
  ]

  pub keep_same : (p q : A → Bool) (xs : List A) → ((x : A) → p x ≡ q x) → keep p xs ≡ keep q xs
  keep_same p q [] h = refl
  keep_same p q (x ∷ xs) h = elim (Bool-cases (q x)) [
    | inl e ↦ rw (h x, e) (ap (λ r. x ∷ r) (keep_same p q xs h))
    | inr e ↦ rw (h x, e) (keep_same p q xs h)
  ]

  -- The order of two filters is of no consequence.
  pub keep_swap : (p q : A → Bool) (xs : List A) → keep p (keep q xs) ≡ keep q (keep p xs)
  keep_swap p q xs =
      sym (keep-keep q p xs)
      ∙ keep_same (λ x. q x && p x) (λ x. p x && q x) xs (λ x. ground arith)
      ∙ keep-keep p q xs

  -- A filter that lets through what another one does changes nothing of it.
  pub keep_absorb :
      (p q : A → Bool) (xs : List A)
      → ((x : A) → p x ≡ true → q x ≡ true)
      → keep p (keep q xs) ≡ keep p xs
  keep_absorb p q xs h =
      sym (keep-keep q p xs) ∙ keep_same (λ x. q x && p x) p xs (λ x. ground (arith, h x))

  -- Filters that agree where another one lets through.
  pub keep_agree :
      (p p' q : A → Bool) (xs : List A)
      → ((x : A) → q x ≡ true → p x ≡ p' x)
      → keep p (keep q xs) ≡ keep p' (keep q xs)
  keep_agree p p' q xs h =
      sym (keep-keep q p xs)
      ∙ keep_same (λ x. q x && p x) (λ x. q x && p' x) xs (λ x. ground (arith, h x))
      ∙ keep-keep q p' xs

  -- A filter lets nothing through that another one stops.
  pub keep_nothing :
      (p q : A → Bool) (xs : List A)
      → ((x : A) → p x ≡ true → q x ≡ false)
      → keep p (keep q xs) ≡ []
  keep_nothing p q [] h = refl
  keep_nothing p q (x ∷ xs) h = ground (arith, h x, keep_nothing p q xs h)

  -- Rows that a filter does not see may change.
  pub keep-update_unseen :
      (p q : A → Bool) (f : A → A) (xs : List A)
      → ((x : A) → p x ≡ true → (q x ≡ false) × (q (f x) ≡ false))
      → keep q (update_where p f xs) ≡ keep q xs
  unfolding update_where
  keep-update_unseen p q f [] h = refl
  keep-update_unseen p q f (x ∷ xs) h = ground (arith, h x, keep-update_unseen p q f xs h)

  pub first-keep-none : (p : A → Bool) (xs : List A) → first (keep p xs) ≡ none → keep p xs ≡ []
  first-keep-none p [] h = refl
  first-keep-none p (x ∷ xs) h = ground (arith, first-keep-none p xs)

  pub keep-update_where :
      (p q : A → Bool) (f : A → A) (xs : List A)
      → ((x : A) → p x ≡ true → q (f x) ≡ q x)
      → keep q (update_where p f xs) ≡ update_where p f (keep q xs)
  unfolding update_where
  keep-update_where p q f [] h = refl
  keep-update_where p q f (x ∷ xs) h = elim (Bool-cases (p x)) [
    | inl e ↦ elim (Bool-cases (q x)) [
      | inl g ↦
          let same : q (f x) ≡ true = h x e ∙ g in
          rw (e, same, g, e) (ap (λ r. f x ∷ r) (keep-update_where p q f xs h))
      | inr g ↦
          let same : q (f x) ≡ false = h x e ∙ g in rw (e, g, same) (keep-update_where p q f xs h)
    ]
    | inr e ↦ elim (Bool-cases (q x)) [
      | inl g ↦ rw (e, g, e) (ap (λ r. x ∷ r) (keep-update_where p q f xs h))
      | inr g ↦ rw (e, g) (keep-update_where p q f xs h)
    ]
  ]

  pub update_where_none :
      (p : A → Bool) (f : A → A) (xs : List A)
      → All (λ x. p x ≡ false) xs
      → update_where p f xs ≡ xs
  unfolding update_where
  update_where_none p f [] h = refl
  update_where_none p f (x ∷ xs) h = rw h.0 (ap (λ r. x ∷ r) (update_where_none p f xs h.1))

-- What a look-up finds, as a list.
abbrev pub list_of : {A : Type 0} → Option A → List A
list_of none = []
list_of (some a) = a ∷ []

module _ {K V : Type 0} ⦃e : Eq K⦄ (key_of : V → K) where
  -- Each entry is filed under the key of its value.
  abbrev pub IsKeyed : Dict K V → Type 0
  IsKeyed d = Entries (λ k v. key_of v ≡ k) d

  keep-values_absent :
      (d : Dict K V) (k : K)
      → IsKeyed d
      → get d k ≡ none
      → keep (λ v. key_of v == k) (values d) ≡ []
  unfolding get
  keep-values_absent [] k h g = refl
  keep-values_absent ((j, v) ∷ d) k h g =
      let same : (key_of v == k) ≡ (j == k) = ap (λ x. x == k) h.0 in
      ground (arith, same, keep-values_absent d k h.1)

  -- The rows of a key are what a look-up finds.
  pub keep-values :
      (d : Dict K V) (k : K)
      → IsKeyed d
      → HasDistinctKeys d
      → keep (λ v. key_of v == k) (values d) ≡ list_of (get d k)
  unfolding get
  keep-values [] k h g = refl
  keep-values ((j, v) ∷ d) k h g =
      let same : (key_of v == k) ≡ (j == k) = ap (λ x. x == k) h.0 in
      elim (Bool-cases (j == k)) [
        | inl there ↦
            let absent : get d k ≡ none = rw (← (==_iff j k).0 there) g.0 in
            rw (same, there) (ap (λ r. v ∷ r) (keep-values_absent d k h.1 absent))
        | inr other ↦ rw (same, other) (keep-values d k h.1 g.1)
      ]

  pub values-put_new :
      (d : Dict K V) (k : K) (v : V) → get d k ≡ none → values (put d k v) ≡ values d ++ v ∷ []
  unfolding get put
  values-put_new [] k v h = refl
  values-put_new ((j, w) ∷ d) k v h = ground (arith, values-put_new d k v)

  pub values-remove :
      (d : Dict K V) (k : K)
      → IsKeyed d
      → values (remove d k) ≡ keep (λ v. not (key_of v == k)) (values d)
  unfolding remove
  values-remove [] k h = refl
  values-remove ((j, v) ∷ d) k h =
      let same : (key_of v == k) ≡ (j == k) = ap (λ x. x == k) h.0 in
      elim (Bool-cases (j == k)) [
        | inl there ↦ rw (same, there) (values-remove d k h.1)
        | inr other ↦ rw (same, other) (ap (λ r. v ∷ r) (values-remove d k h.1))
      ]

  -- A test that only values of a key meet fails where the key is absent.
  no_key :
      (p : V → Bool) (d : Dict K V) (k : K)
      → ((v : V) → p v ≡ true → (key_of v == k) ≡ true)
      → IsKeyed d
      → get d k ≡ none
      → All (λ v. p v ≡ false) (values d)
  unfolding get
  no_key p [] k only h g = tt
  no_key p ((j, v) ∷ d) k only h g =
      let same : (key_of v == k) ≡ (j == k) = ap (λ x. x == k) h.0 in
      (ground (arith, same, only v), no_key p d k only h.1 (ground arith))

  -- A write to a key that is there changes its row.
  pub values-put :
      (p : V → Bool) (d : Dict K V) (k : K) (v : V) (f : V → V)
      → ((w : V) → p w ≡ true → (key_of w == k) ≡ true)
      → p v ≡ true
      → IsKeyed d
      → HasDistinctKeys d
      → get d k ≡ some v
      → values (put d k (f v)) ≡ update_where p f (values d)
  unfolding get put update_where
  values-put p [] k v f only met h g there = absurd (ground arith)
  values-put p ((j, w) ∷ d) k v f only met h g there =
      let same : (key_of w == k) ≡ (j == k) = ap (λ x. x == k) h.0 in
      elim (Bool-cases (j == k)) [
        | inl here ↦
            let absent : get d k ≡ none = rw (← (==_iff j k).0 here) g.0 in
            let is : w ≡ v = ground arith in
            rw (here, is, met)
              (ap (λ r. f v ∷ r)
                (sym (update_where_none p f (values d) (no_key p d k only h.1 absent))))
        | inr other ↦
            let missed : p w ≡ false = ground (arith, same, only w) in
            rw (other, missed)
              (ap (λ r. w ∷ r) (values-put p d k v f only met h.1 g.1 (ground arith)))
      ]
