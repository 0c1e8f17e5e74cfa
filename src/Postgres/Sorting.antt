-- ===== src/Postgres/Sorting.antt =====
-- `ORDER BY created_at, id` and `LIMIT`, in both directions, on the rows of a transcript whose
-- messages were created one after the other.
use mathlib.Core.List.{append-nil, append_assoc}
use bat_ai.Prelude.{
  ℕ, zero, suc, ◌-◌, ◌<◌, ◌≤◌, ◌≡◌, refl, sym, ap, ◌∙◌, inl, inr, true, false, List, [], ◌∷◌, ◌++◌,
  arith, ◌==◌, string_eq, Bool-cases, All, All-append, take, drop, length, length-append, leb,
  length-drop, take-append-drop, ◌⊎◌,
}
use bat_ai.Sessions.Store.{last}
use bat_ai.Postgres.Tables.{
  MessageRow, Server, insert_by, sort_by, sooner, oldest_first, newest_first,
}

-- The one is created before the other and has another id.
abbrev pub Before : MessageRow → MessageRow → Type 0
Before a b = (a.created_at < b.created_at) × ((a.id == b.id) ≡ false)

abbrev pub IsTimely : List MessageRow → Type 0
IsTimely [] = Unit
IsTimely (r ∷ rs) = All (Before r) rs × IsTimely rs

-- The rows in the other order.
abbrev pub backwards : List MessageRow → List MessageRow
backwards [] = []
backwards (r ∷ rs) = backwards rs ++ r ∷ []

pub IsTimely-end :
    (rs : List MessageRow) (r : MessageRow)
    → IsTimely rs
    → All (λ x. Before x r) rs
    → IsTimely (rs ++ r ∷ [])
IsTimely-end [] r h b = (tt, tt)
IsTimely-end (x ∷ rs) r h b =
    (All-append (Before x) rs (r ∷ []) h.0 (b.0, tt), IsTimely-end rs r h.1 b.1)

pub IsTimely-drop : (n : ℕ) (rs : List MessageRow) → IsTimely rs → IsTimely (drop n rs)
IsTimely-drop zero rs h = h
IsTimely-drop (suc n) [] h = h
IsTimely-drop (suc n) (r ∷ rs) h = IsTimely-drop n rs h.1

All-backwards : (P : MessageRow → Type 0) (rs : List MessageRow) → All P rs → All P (backwards rs)
All-backwards P [] h = tt
All-backwards P (r ∷ rs) h = All-append P (backwards rs) (r ∷ []) (All-backwards P rs h.1) (h.0, tt)

module _ (server : Server) where
  sooner-true : (a b : MessageRow) → Before a b → sooner server a b ≡ true
  sooner-true a b h = ground (arith, h.0)

  sooner-false : (a b : MessageRow) → Before a b → sooner server b a ≡ false
  sooner-false a b h = ground (arith, h.0)

  pub oldest_first_same : (rs : List MessageRow) → IsTimely rs → oldest_first server rs ≡ rs
  unfolding oldest_first sort_by
  oldest_first_same [] h = refl
  oldest_first_same (r ∷ rs) h =
      ap (insert_by (sooner server) r) (oldest_first_same rs h.1) ∙ put_first r rs h.0
    where
      put_first :
          (r : MessageRow) (rs : List MessageRow)
          → All (Before r) rs
          → insert_by (sooner server) r rs ≡ r ∷ rs
      put_first r [] h = refl
      put_first r (x ∷ rs) h = rw (sooner-true r x h.0) refl

  put_last :
      (r : MessageRow) (rs : List MessageRow)
      → All (Before r) rs
      → insert_by (λ a b. sooner server b a) r rs ≡ rs ++ r ∷ []
  put_last r [] h = refl
  put_last r (x ∷ rs) h = rw (sooner-false r x h.0) (ap (λ y. x ∷ y) (put_last r rs h.1))

  pub newest_first-backwards :
      (rs : List MessageRow) → IsTimely rs → newest_first server rs ≡ backwards rs
  unfolding newest_first sort_by
  newest_first-backwards [] h = refl
  newest_first-backwards (r ∷ rs) h =
      ap (insert_by (λ a b. sooner server b a) r) (newest_first-backwards rs h.1)
      ∙ put_last r (backwards rs) (All-backwards (Before r) rs h.0)

  put_end :
      (r : MessageRow) (rs : List MessageRow)
      → All (λ x. Before x r) rs
      → insert_by (sooner server) r rs ≡ rs ++ r ∷ []
  put_end r [] h = refl
  put_end r (x ∷ rs) h = rw (sooner-false x r h.0) (ap (λ y. x ∷ y) (put_end r rs h.1))

  -- The rows are given from the newest on.
  IsUntimely : List MessageRow → Type 0
  IsUntimely [] = Unit
  IsUntimely (r ∷ rs) = All (λ x. Before x r) rs × IsUntimely rs

  IsUntimely-end :
      (rs : List MessageRow) (r : MessageRow)
      → IsUntimely rs
      → All (Before r) rs
      → IsUntimely (rs ++ r ∷ [])
  unfolding IsUntimely
  IsUntimely-end [] r h b = (tt, tt)
  IsUntimely-end (x ∷ rs) r h b =
      (All-append (λ y. Before y x) rs (r ∷ []) h.0 (b.0, tt), IsUntimely-end rs r h.1 b.1)

  IsUntimely-backwards : (rs : List MessageRow) → IsTimely rs → IsUntimely (backwards rs)
  unfolding IsUntimely
  IsUntimely-backwards [] h = tt
  IsUntimely-backwards (r ∷ rs) h =
      IsUntimely-end (backwards rs) r (IsUntimely-backwards rs h.1)
        (All-backwards (Before r) rs h.0)

  oldest_first_untimely :
      (rs : List MessageRow) → IsUntimely rs → oldest_first server rs ≡ backwards rs
  unfolding oldest_first sort_by IsUntimely
  oldest_first_untimely [] h = refl
  oldest_first_untimely (r ∷ rs) h =
      ap (insert_by (sooner server) r) (oldest_first_untimely rs h.1)
      ∙ put_end r (backwards rs) (All-backwards (λ x. Before x r) rs h.0)

backwards-append : (xs ys : List MessageRow) → backwards (xs ++ ys) ≡ backwards ys ++ backwards xs
backwards-append [] ys = sym (append-nil (backwards ys))
backwards-append (x ∷ xs) ys =
    ap (λ r. r ++ x ∷ []) (backwards-append xs ys)
    ∙ append_assoc (backwards ys) (backwards xs) (x ∷ [])

backwards_twice : (rs : List MessageRow) → backwards (backwards rs) ≡ rs
backwards_twice [] = refl
backwards_twice (r ∷ rs) =
    backwards-append (backwards rs) (r ∷ []) ∙ ap (λ x. r ∷ x) (backwards_twice rs)

length-backwards : (rs : List MessageRow) → length (backwards rs) ≡ length rs
length-backwards [] = refl
length-backwards (r ∷ rs) =
    omega (arith, length-append (backwards rs) (r ∷ []), length-backwards rs)

-- A cut at the end of the first of two lists, or after both.
take-append_front :
    (n : ℕ) (xs ys : List MessageRow)
    → length xs ≤ n
    → (n ≤ length xs) ⊎ (ys ≡ [])
    → take n (xs ++ ys) ≡ xs
take-append_front zero [] ys h k = refl
take-append_front zero (x ∷ xs) ys h k = absurd (omega (arith, h))
take-append_front (suc n) [] ys h k = elim k [
  | inl over ↦ absurd (omega (arith, over))
  | inr none_left ↦ rw none_left refl
]
take-append_front (suc n) (x ∷ xs) ys h k =
    ap (λ r. x ∷ r)
      (take-append_front n xs ys (omega (arith, h))
        (elim k [ inl over ↦ inl (omega (arith, over)) | inr none_left ↦ inr none_left ]))

drop-append_front :
    (n : ℕ) (xs ys : List MessageRow)
    → length xs ≤ n
    → (n ≤ length xs) ⊎ (ys ≡ [])
    → drop n (xs ++ ys) ≡ ys
drop-append_front zero [] ys h k = refl
drop-append_front zero (x ∷ xs) ys h k = absurd (omega (arith, h))
drop-append_front (suc n) [] ys h k = elim k [
  | inl over ↦ absurd (omega (arith, over))
  | inr none_left ↦ rw none_left refl
]
drop-append_front (suc n) (x ∷ xs) ys h k =
    drop-append_front n xs ys (omega (arith, h))
      (elim k [ inl over ↦ inl (omega (arith, over)) | inr none_left ↦ inr none_left ])

-- The rows before the last n, and the last n.
abbrev pub earlier : ℕ → List MessageRow → List MessageRow
earlier n rs = take (length rs - n) rs

module _ (n : ℕ) (rs : List MessageRow) where
  split_lem : backwards rs ≡ backwards (last n rs) ++ backwards (earlier n rs)
  unfolding last
  split_lem =
      ap backwards (sym (take-append-drop (length rs - n) rs))
      ∙ backwards-append (earlier n rs) (drop (length rs - n) rs)

  -- The last n are n, or nothing is before them.
  cut_lem :
      (length (backwards (last n rs)) ≤ n)
      × ((n ≤ length (backwards (last n rs))) ⊎ (backwards (earlier n rs) ≡ []))
  unfolding last
  cut_lem =
      let long = length-backwards (drop (length rs - n) rs) in
      let rest = length-drop (length rs - n) rs in
      (
        omega (arith, long, rest),
        elim (Bool-cases (leb n (length rs))) [
          | inl enough ↦ inl (ground (arith, long, rest, enough))
          | inr few ↦
              let all_kept : length rs - n ≡ 0 = ground (arith, few) in inr (rw all_kept refl)
        ],
      )

  pub take-backwards : take n (backwards rs) ≡ backwards (last n rs)
  take-backwards = ap (take n) split_lem ∙ take-append_front n _ _ cut_lem.0 cut_lem.1

  pub drop-backwards : drop n (backwards rs) ≡ backwards (earlier n rs)
  drop-backwards = ap (drop n) split_lem ∙ drop-append_front n _ _ cut_lem.0 cut_lem.1

-- What a read of the last messages gives.
pub recent_lem :
    (server : Server) (limit : ℕ) (rs : List MessageRow)
    → IsTimely rs
    → oldest_first server (take limit (newest_first server rs)) ≡ last limit rs
unfolding last
recent_lem server limit rs h =
    ap (λ x. oldest_first server (take limit x)) (newest_first-backwards server rs h)
    ∙ ap (oldest_first server) (take-backwards limit rs)
    ∙ oldest_first_untimely server (backwards (last limit rs))
        (IsUntimely-backwards server (last limit rs) (IsTimely-drop _ rs h))
    ∙ backwards_twice (last limit rs)
