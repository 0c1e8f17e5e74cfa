-- ===== src/Prelude/Dict.antt =====
-- Python's `dict`: its entries in insertion order. A write to a key that is there keeps the place.
use mathlib.Core.Path.{◌∙◌, ap, ◌≡◌, refl}
use mathlib.Core.Bool.{not, Bool, false}
use mathlib.Core.Logic.{inl, inr}
use mathlib.Core.Option.{Option, none, some}
use mathlib.Core.List.{List, [], ◌∷◌, map}
use native.Mathlib.Omega.{arith}
use bat_ai.Prelude.Tests.{
  ==_refl, Option-cases, some-eq_of_some-eq, Bool-cases, if◌then◌else◌, Eq, ◌==◌, ==_iff,
}
use bat_ai.Prelude.Lists.{keep, contains}

abbrev pub Dict {ℓ} : Type ℓ → Type ℓ → Type ℓ
Dict K V = List (K × V)

module _ {ℓ} {K V : Type ℓ} where
  -- `d.values()`
  abbrev pub values : Dict K V → List V
  values d = map (λ e. e.1) d

  abbrev pub keys : Dict K V → List K
  keys d = map (λ e. e.0) d

module _ {ℓ} {K V : Type ℓ} ⦃e : Eq K⦄ where
  -- `d.get(k)`
  unfoldable pub get : Dict K V → K → Option V
  get [] k = none
  get ((j, v) ∷ d) k = if j == k then some v else get d k

  -- `d[k] = v`
  unfoldable pub put : Dict K V → K → V → Dict K V
  put [] k v = (k, v) ∷ []
  put ((j, w) ∷ d) k v = if j == k then (j, v) ∷ d else (j, w) ∷ put d k v

  -- `d.pop(k, None)`
  unfoldable pub remove : Dict K V → K → Dict K V
  remove [] k = []
  remove ((j, w) ∷ d) k = let rest = remove d k in if j == k then rest else (j, w) ∷ rest

  -- `d.get(k, default)`
  unfoldable pub get_or : Dict K V → K → V → V
  unfolding get
  get_or d k v = elim (get d k) [ none ↦ v | some w ↦ w ]

  pub get-put :
      (d : Dict K V) (k j : K) (v : V) → get (put d k v) j ≡ (if k == j then some v else get d j)
  unfolding get put
  get-put [] k j v = refl
  get-put ((i, w) ∷ d) k j v = ground (arith, ==_iff k j, ==_iff i k, ==_iff i j, get-put d k j v)

  pub get-remove :
      (d : Dict K V) (k j : K) → get (remove d k) j ≡ (if k == j then none else get d j)
  unfolding get remove
  get-remove [] k j = ground arith
  get-remove ((i, w) ∷ d) k j = ground (arith, ==_iff k j, ==_iff i k, ==_iff i j, get-remove d k j)

pub ruleset dict_laws = (get-put, get-remove)

module _ {ℓ} {K V : Type ℓ} ⦃e : Eq K⦄ where
  -- `d.setdefault(k, v)`
  unfoldable pub setdefault : Dict K V → K → V → Dict K V
  setdefault d k v = elim (get d k) [ none ↦ put d k v | some w ↦ d ]

  pub get-setdefault_ne :
      (d : Dict K V) (k j : K) (v : V) → (k == j) ≡ false → get (setdefault d k v) j ≡ get d j
  unfolding setdefault
  get-setdefault_ne d k j v h = ground (arith, get-put d k j v)

  pub get_or-setdefault :
      (d : Dict K V) (k j : K) (v : V) → get_or (setdefault d k v) j v ≡ get_or d j v
  unfolding setdefault get_or
  get_or-setdefault d k j v = ground (arith, get-put d k j v, ==_iff k j)

  pub get_or-put :
      (d : Dict K V) (k j : K) (v w : V)
      → get_or (put d k v) j w ≡ (if k == j then v else get_or d j w)
  unfolding get_or
  get_or-put d k j v w = ground (arith, get-put d k j v)

-- No key stands twice.
module _ {ℓ} {K V : Type ℓ} ⦃e : Eq K⦄ where
  abbrev pub HasDistinctKeys : Dict K V → Type ℓ
  HasDistinctKeys [] = Unit
  HasDistinctKeys ((k, v) ∷ d) = (get d k ≡ none) × HasDistinctKeys d

  pub put-HasDistinctKeys :
      (d : Dict K V) (k : K) (v : V) → HasDistinctKeys d → HasDistinctKeys (put d k v)
  unfolding put get
  put-HasDistinctKeys [] k v h = (refl, tt)
  put-HasDistinctKeys ((j, w) ∷ d) k v h = elim (Bool-cases (j == k)) [
    | inl same ↦ rw same h
    | inr other ↦ rw other (get_put_other d k j v other h.0, put-HasDistinctKeys d k v h.1)
  ]
    where
      get_put_other :
          (d : Dict K V) (k j : K) (v : V)
          → (j == k) ≡ false
          → get d j ≡ none
          → get (put d k v) j ≡ none
      get_put_other d k j v other absent = ground (arith, get-put d k j v, ==_iff k j, ==_iff j k)

  pub remove-HasDistinctKeys :
      (d : Dict K V) (k : K) → HasDistinctKeys d → HasDistinctKeys (remove d k)
  unfolding remove
  remove-HasDistinctKeys [] k h = tt
  remove-HasDistinctKeys ((j, w) ∷ d) k h = elim (Bool-cases (j == k)) [
    | inl same ↦ rw same (remove-HasDistinctKeys d k h.1)
    | inr other ↦ rw other (ground (arith, get-remove d k j), remove-HasDistinctKeys d k h.1)
  ]

  module _ {κ} (P : K → V → Type κ) where
    -- Every entry has the property.
    abbrev pub Entries : Dict K V → Type κ
    Entries [] = Unit
    Entries ((k, v) ∷ d) = P k v × Entries d

    pub put-Entries : (d : Dict K V) (k : K) (v : V) → P k v → Entries d → Entries (put d k v)
    unfolding put
    put-Entries [] k v p h = (p, tt)
    put-Entries ((j, w) ∷ d) k v p h = elim (Bool-cases (j == k)) [
      | inl same ↦ rw same (rw ((==_iff j k).0 same) p, h.1)
      | inr other ↦ rw other (h.0, put-Entries d k v p h.1)
    ]

    pub remove-Entries : (d : Dict K V) (k : K) → Entries d → Entries (remove d k)
    unfolding remove
    remove-Entries [] k h = tt
    remove-Entries ((j, w) ∷ d) k h = elim (Bool-cases (j == k)) [
      | inl same ↦ rw same (remove-Entries d k h.1)
      | inr other ↦ rw other (h.0, remove-Entries d k h.1)
    ]

    pub get-Entries : (d : Dict K V) (k : K) (v : V) → get d k ≡ some v → Entries d → P k v
    unfolding get
    get-Entries [] k v g h = cc
    get-Entries ((j, w) ∷ d) k v g h = elim (Bool-cases (j == k)) [
      | inl same ↦
          let same_value : w ≡ v = some-eq_of_some-eq w v (ground arith) in
          rw (← (==_iff j k).0 same, ← same_value) h.0
      | inr other ↦ get-Entries d k v (ground arith) h.1
    ]

module _ {ℓ} {K V : Type ℓ} ⦃e : Eq K⦄ where
  pub setdefault-HasDistinctKeys :
      (d : Dict K V) (k : K) (v : V) → HasDistinctKeys d → HasDistinctKeys (setdefault d k v)
  unfolding setdefault
  setdefault-HasDistinctKeys d k v h = elim (Option-cases (get d k)) [
    | inl absent ↦ rw (absent, setdefault) (put-HasDistinctKeys d k v h)
    | inr (w, there) ↦ rw (there, setdefault) h
  ]

-- Sweeps: the keys that a test selects are collected first and removed one by one.
module _ {ℓ} {K V : Type ℓ} ⦃e : Eq K⦄ where
  unfoldable pub remove_all : Dict K V → List K → Dict K V
  remove_all d [] = d
  remove_all d (k ∷ ks) = remove_all (remove d k) ks

  abbrev pub selected : (K → V → Bool) → Dict K V → List K
  selected p d = keys (keep (λ (x : K × V). p x.0 x.1) d)

  -- The test of what is found under a key.
  abbrev pub test_at : (K → V → Bool) → K → Option V → Bool
  test_at p k none = false
  test_at p k (some v) = p k v

  pub get-remove_all :
      (d : Dict K V) (ks : List K) (k : K)
      → get (remove_all d ks) k ≡ (if contains k ks then none else get d k)
  unfolding remove_all
  get-remove_all d [] k = refl
  get-remove_all d (j ∷ js) k =
      ground (arith, get-remove_all (remove d j) js k, get-remove d j k, ==_iff j k)

  contains-selected_absent :
      (p : K → V → Bool) (d : Dict K V) (k : K) → get d k ≡ none → contains k (selected p d) ≡ false
  unfolding get
  contains-selected_absent p [] k h = refl
  contains-selected_absent p ((j, x) ∷ d) k h = ground (arith, contains-selected_absent p d k)

  pub contains-selected :
      (p : K → V → Bool) (d : Dict K V) (k : K)
      → HasDistinctKeys d
      → contains k (selected p d) ≡ test_at p k (get d k)
  unfolding get
  contains-selected p [] k h = refl
  contains-selected p ((j, x) ∷ d) k h = elim (Bool-cases (j == k)) [
    | inl same ↦
        let e : j ≡ k = (==_iff j k).0 same in
        let absent : get d k ≡ none = rw (← e) h.0 in
        ground (arith, contains-selected_absent p d k absent)
    | inr other ↦ ground (arith, contains-selected p d k h.1)
  ]

  -- The sweep leaves what the test does not select.
  pub get-remove_all-selected :
      (p : K → V → Bool) (d : Dict K V) (k : K)
      → HasDistinctKeys d
      → get (remove_all d (selected p d)) k ≡ (if test_at p k (get d k) then none else get d k)
  get-remove_all-selected p d k h = rw (get-remove_all, contains-selected p d k h)

  pub remove_all-HasDistinctKeys :
      (d : Dict K V) (ks : List K) → HasDistinctKeys d → HasDistinctKeys (remove_all d ks)
  unfolding remove_all
  remove_all-HasDistinctKeys d [] h = h
  remove_all-HasDistinctKeys d (k ∷ ks) h =
      remove_all-HasDistinctKeys (remove d k) ks (remove-HasDistinctKeys d k h)

  pub remove_all-Entries {κ} :
      (P : K → V → Type κ) (d : Dict K V) (ks : List K) → Entries P d → Entries P (remove_all d ks)
  unfolding remove_all
  remove_all-Entries P d [] h = h
  remove_all-Entries P d (k ∷ ks) h = remove_all-Entries P (remove d k) ks (remove-Entries P d k h)

  pub remove_absent : (d : Dict K V) (k : K) → get d k ≡ none → remove d k ≡ d
  unfolding get remove
  remove_absent [] k h = refl
  remove_absent ((j, v) ∷ d) k h = ground (arith, remove_absent d k)

  remove_all_other :
      (d : Dict K V) (ks : List K) (k : K) (v : V)
      → contains k ks ≡ false
      → remove_all ((k, v) ∷ d) ks ≡ (k, v) ∷ remove_all d ks
  unfolding remove_all remove
  remove_all_other d [] k v h = refl
  remove_all_other d (j ∷ js) k v h = elim (Bool-cases (k == j)) [
    | inl same ↦ ground (arith, ==_iff k j, ==_iff j k)
    | inr other ↦ rw other (remove_all_other (remove d j) js k v (ground arith))
  ]

  remove-head : (d : Dict K V) (k : K) (v : V) → get d k ≡ none → remove ((k, v) ∷ d) k ≡ d
  unfolding remove
  remove-head d k v h = rw (==_refl k) (remove_absent d k h)

  remove_all-head :
      (d : Dict K V) (k : K) (v : V) (ks : List K)
      → get d k ≡ none
      → remove_all ((k, v) ∷ d) (k ∷ ks) ≡ remove_all d ks
  unfolding remove_all
  remove_all-head d k v ks h = ap (λ x. remove_all x ks) (remove-head d k v h)

  -- The sweep is a filter.
  pub remove_all-selected :
      (p : K → V → Bool) (d : Dict K V)
      → HasDistinctKeys d
      → remove_all d (selected p d) ≡ keep (λ (x : K × V). not (p x.0 x.1)) d
  remove_all-selected p [] h = unfold remove_all in refl
  remove_all-selected p ((k, v) ∷ d) h = elim (Bool-cases (p k v)) [
    | inl chosen ↦
        rw chosen (remove_all-head d k v (selected p d) h.0 ∙ remove_all-selected p d h.1)
    | inr spared ↦
        rw (spared, remove_all_other d (selected p d) k v (contains-selected_absent p d k h.0))
          (ap (λ r. (k, v) ∷ r) (remove_all-selected p d h.1))
  ]

module _ {ℓ} {K V : Type ℓ} ⦃e : Eq K⦄ where
  pub map-Entries {κ μ} :
      (P : K → V → Type κ) (Q : K → V → Type μ) (d : Dict K V)
      → ((k : K) (v : V) → P k v → Q k v)
      → Entries P d
      → Entries Q d
  map-Entries P Q [] f h = tt
  map-Entries P Q ((k, v) ∷ d) f h = (f k v h.0, map-Entries P Q d f h.1)

  -- Where no key is twice, each entry is what a look-up of its key finds.
  pub get-own : (d : Dict K V) → HasDistinctKeys d → Entries (λ k v. get d k ≡ some v) d
  unfolding get
  get-own [] h = tt
  get-own ((k, v) ∷ d) h = (
    ground (arith, ==_refl k),
    map-Entries (λ j w. get d j ≡ some w) _ d (λ j w there. ground (arith, h.0, ==_iff k j))
        (get-own d h.1),
  )

  pub zip-Entries {κ μ} :
      (P : K → V → Type κ) (Q : K → V → Type μ) (d : Dict K V)
      → Entries P d
      → Entries Q d
      → Entries (λ k v. P k v × Q k v) d
  zip-Entries P Q [] h k = tt
  zip-Entries P Q ((j, v) ∷ d) h k = ((h.0, k.0), zip-Entries P Q d h.1 k.1)
