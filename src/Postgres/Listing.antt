-- ===== src/Postgres/Listing.antt =====
-- `list_sessions` of bat/adapters/session_store_postgres.py beside that of
-- bat/adapters/session_store_memory.py: the one filters by its cursor before it sorts, the other
-- after.
use bat_ai.Prelude.{
  ℕ, suc, ◌+◌, ◌≡◌, refl, sym, ap, ◌∙◌, inl, inr, Bool, true, false, ◌&&◌, not, List, [], ◌∷◌,
  Option, none, String, arith, if◌then◌else◌, ◌==◌, ==_iff, string_eq, nat_eq, nat_beq, Bool-cases,
  All, keep, take,
}
use bat_ai.Prelude.Dict.{Dict, get, values, HasDistinctKeys}
use bat_ai.Domain.Conversation.{Session, Page, is_expired}
use bat_ai.Sessions.Order.{
  older, insert, newest_first, IsDescending, HasDistinctIds, newest_first-IsDescending,
}
use bat_ai.Sessions.Store.{Store, partition, transcripts, is_owner, candidates, page_of}
use bat_ai.Sessions.Invariant.{IsPartition}
use bat_ai.Postgres.Tables.{Server}
use bat_ai.Postgres.Store.{Postgres, is_after, is_listed, page_of_rows}
use bat_ai.Postgres.Rows.{keep-keep, IsKeyed}
use bat_ai.Postgres.Agreement.{View, partition-IsKeyed}

-- A session that is not older than the first of a descending list goes before whatever is kept of
-- it.
insert-keep_newer :
    (p : Session → Bool) (x y : Session) (ys : List Session)
    → older x y ≡ false
    → All (λ z. older z y ≡ true) ys
    → insert x (keep p ys) ≡ x ∷ keep p ys
unfolding insert
insert-keep_newer p x y [] newer d = refl
insert-keep_newer p x y (z ∷ zs) newer d = elim (Bool-cases (p z)) [
  | inl kept ↦
      let before : older x z ≡ false = ground (arith, newer, d.0) in rw kept (rw before refl)
  | inr cut ↦ rw cut (insert-keep_newer p x y zs newer d.1)
]

keep-insert :
    (p : Session → Bool) (x : Session) (ys : List Session)
    → IsDescending ys
    → keep p (insert x ys) ≡ (if p x then insert x (keep p ys) else keep p ys)
unfolding insert
keep-insert p x [] d = refl
keep-insert p x (y ∷ ys) d = elim (Bool-cases (older x y)) [
  | inl behind ↦ ground (arith, behind, keep-insert p x ys d.1)
  | inr newer ↦ elim (Bool-cases (p y)) [
    | inl kept ↦ ground (arith, newer, kept)
    | inr cut ↦ rw (newer, cut) (ground (arith, insert-keep_newer p x y ys newer d.0))
  ]
]

-- A filter may come before the sort or after it.
pub keep-newest_first :
    (p : Session → Bool) (xs : List Session)
    → HasDistinctIds xs
    → keep p (newest_first xs) ≡ newest_first (keep p xs)
unfolding newest_first
keep-newest_first p [] h = refl
keep-newest_first p (x ∷ xs) h =
    keep-insert p x (newest_first xs) (newest_first-IsDescending xs h.1) ∙ elim (Bool-cases (p x)) [
      | inl kept ↦ rw (kept, newest_first) (ap (insert x) (keep-newest_first p xs h.1))
      | inr cut ↦ rw (cut, newest_first) (keep-newest_first p xs h.1)
    ]

All-keep : {A : Type 0} (P : A → Type 0) (p : A → Bool) (xs : List A) → All P xs → All P (keep p xs)
All-keep P p [] h = tt
All-keep P p (x ∷ xs) h = elim (Bool-cases (p x)) [
  | inl kept ↦ rw kept (h.0, All-keep P p xs h.1)
  | inr cut ↦ rw cut (All-keep P p xs h.1)
]

keep-HasDistinctIds :
    (p : Session → Bool) (xs : List Session) → HasDistinctIds xs → HasDistinctIds (keep p xs)
keep-HasDistinctIds p [] h = tt
keep-HasDistinctIds p (x ∷ xs) h = elim (Bool-cases (p x)) [
  | inl kept ↦ rw kept (All-keep _ p xs h.0, keep-HasDistinctIds p xs h.1)
  | inr cut ↦ rw cut (keep-HasDistinctIds p xs h.1)
]

absent_id :
    (d : Dict ℕ Session) (k : ℕ) (x : Session)
    → x.id ≡ k
    → IsKeyed (λ (y : Session). y.id) d
    → get d k ≡ none
    → All (λ y. nat_beq x.id y.id ≡ false) (values d)
unfolding get
absent_id [] k x is h g = tt
absent_id ((j, y) ∷ d) k x is h g =
    (ground (arith, is, h.0, ==_iff j k), absent_id d k x is h.1 (ground arith))

values-HasDistinctIds :
    (d : Dict ℕ Session)
    → IsKeyed (λ (y : Session). y.id) d
    → HasDistinctKeys d
    → HasDistinctIds (values d)
values-HasDistinctIds [] h g = tt
values-HasDistinctIds ((j, x) ∷ d) h g =
    (absent_id d j x h.0 h.1 g.0, values-HasDistinctIds d h.1 g.1)

pub keep_all : {A : Type 0} (xs : List A) → keep (λ _. true) xs ≡ xs
keep_all [] = refl
keep_all (x ∷ xs) = ap (λ r. x ∷ r) (keep_all xs)

page_of_rows-page_of :
    (limit : ℕ) (l : List Session) → page_of_rows limit (take (limit + 1) l) ≡ page_of limit l
unfolding page_of_rows page_of
page_of_rows-page_of limit l = let next : limit + 1 ≡ suc limit = omega arith in rw next refl

module _ (server : Server) (p : Postgres) (s : Store) (tenant : String) (at : ℕ)
    (principal : Option String)
    (valid : IsPartition tenant s.history_cap (partition s tenant) (transcripts s tenant))
    (view : View server tenant p (partition s tenant) (transcripts s tenant)) where
  -- The live sessions of the owner, in any order.
  abbrev shown : Session → Bool
  shown x = not (is_expired x at) && is_owner principal x

  listed_lem :
      (start : Option (ℕ × ℕ))
      → newest_first (keep (is_listed at tenant principal start) p.sessions)
        ≡ keep (is_after start) (candidates s at tenant principal)
  listed_lem start =
      ap newest_first (
        keep-keep (λ x. x.tenant_id == tenant) (λ x. shown x && is_after start x) p.sessions
        ∙ ap (keep (λ x. shown x && is_after start x)) view.sessions
        ∙ keep-keep shown (is_after start) (values (partition s tenant)))
      ∙ sym (
          keep-newest_first (is_after start) _ (
            keep-HasDistinctIds shown _ (
              values-HasDistinctIds (partition s tenant)
                (partition-IsKeyed server tenant p s view valid 0) valid.distinct)))

  -- The page that the statement gives.
  abbrev pub page_from : ℕ → Option (ℕ × ℕ) → Page
  page_from limit start =
      page_of_rows limit
        (take (limit + 1) (newest_first (keep (is_listed at tenant principal start) p.sessions)))

  pub page_lem :
      (limit : ℕ) (start : Option (ℕ × ℕ))
      → page_from limit start
        ≡ page_of limit (keep (is_after start) (candidates s at tenant principal))
  page_lem limit start = page_of_rows-page_of limit _ ∙ ap (page_of limit) (listed_lem start)

  pub first_page_lem :
      (limit : ℕ) → page_from limit none ≡ page_of limit (candidates s at tenant principal)
  first_page_lem limit = page_lem limit none ∙ ap (page_of limit) (keep_all _)
