-- ===== src/Postgres/Trim.antt =====
-- The trim of a transcript in bat/adapters/session_store_postgres.py, on rows whose messages were
-- created one after the other.
use std.Path.{subst}
use mathlib.Core.List.{append_assoc}
use bat_ai.Prelude.{
  ℕ, ◌-◌, ◌≡◌, refl, sym, ap, ◌∙◌, Bool, true, false, ◌||◌, not, List, [], ◌∷◌, ◌++◌, arith,
  ==_refl, string_eq, All, keep, map, drop, length, contains, String, take-append-drop,
}
use bat_ai.Sessions.Store.{last}
use bat_ai.Postgres.Rows.{keep-append}
use bat_ai.Postgres.Tables.{MessageRow, Server, newest_first}
use bat_ai.Postgres.Sorting.{
  Before, IsTimely, backwards, newest_first-backwards, drop-backwards, earlier,
}

abbrev ids : List MessageRow → List String
ids rs = map (λ (r : MessageRow). r.id) rs

contains-ids_append :
    (a : String) (xs ys : List MessageRow)
    → contains a (ids (xs ++ ys)) ≡ contains a (ids xs) || contains a (ids ys)
contains-ids_append a [] ys = refl
contains-ids_append a (x ∷ xs) ys = ground (arith, contains-ids_append a xs ys)

contains-ids_backwards :
    (a : String) (xs : List MessageRow) → contains a (ids (backwards xs)) ≡ contains a (ids xs)
contains-ids_backwards a [] = refl
contains-ids_backwards a (x ∷ xs) =
    ground (arith, contains-ids_append a (backwards xs) (x ∷ []), contains-ids_backwards a xs)

abbrev is_left : List MessageRow → MessageRow → Bool
is_left xs r = not (contains r.id (ids (backwards xs)))

zip_apart :
    (x : MessageRow) (xs ys : List MessageRow)
    → All (Before x) ys
    → All (λ y. contains y.id (ids xs) ≡ false) ys
    → All (λ y. contains y.id (ids (x ∷ xs)) ≡ false) ys
zip_apart x xs [] h k = tt
zip_apart x xs (y ∷ ys) h k = (ground (arith, h.0.1, k.0), zip_apart x xs ys h.1 k.1)

All-right : (P : MessageRow → Type 0) (xs ys : List MessageRow) → All P (xs ++ ys) → All P ys
All-right P [] ys h = h
All-right P (x ∷ xs) ys h = All-right P xs ys h.1

nothing_in : (ys : List MessageRow) → All (λ y. contains y.id (ids []) ≡ false) ys
nothing_in [] = tt
nothing_in (y ∷ ys) = (refl, nothing_in ys)

-- No id of the first rows stands among the others.
ids_apart :
    (xs ys : List MessageRow) → IsTimely (xs ++ ys) → All (λ y. contains y.id (ids xs) ≡ false) ys
ids_apart [] ys h = nothing_in ys
ids_apart (x ∷ xs) ys h = zip_apart x xs ys (All-right (Before x) xs ys h.0) (ids_apart xs ys h.1)

keep_left :
    (xs ys : List MessageRow)
    → All (λ y. contains y.id (ids xs) ≡ false) ys
    → keep (is_left xs) ys ≡ ys
keep_left xs [] h = refl
keep_left xs (y ∷ ys) h =
    let out : is_left xs y ≡ true = ground (arith, contains-ids_backwards y.id xs, h.0) in
    rw out (ap (λ r. y ∷ r) (keep_left xs ys h.1))

-- The first rows are those whose ids are theirs.
keep_gone :
    (xs zs : List MessageRow)
    → All (λ z. contains z.id (ids xs) ≡ true) zs
    → keep (is_left xs) zs ≡ []
keep_gone xs [] h = refl
keep_gone xs (z ∷ zs) h =
    let gone : is_left xs z ≡ false = ground (arith, contains-ids_backwards z.id xs, h.0) in
    rw gone (keep_gone xs zs h.1)

contains_own : (front xs : List MessageRow) → All (λ z. contains z.id (ids (front ++ xs)) ≡ true) xs
contains_own front [] = tt
contains_own front (x ∷ xs) = (
  ground (arith, contains-ids_append x.id front (x ∷ xs), ==_refl x.id),
  subst (λ l. All (λ z. contains z.id (ids l) ≡ true) xs) (append_assoc front (x ∷ []) xs)
      (contains_own (front ++ x ∷ []) xs),
)

-- A transcript without the rows whose ids are those of all but its last n is its last n rows.
pub trimmed_lem :
    (server : Server) (n : ℕ) (rs : List MessageRow)
    → IsTimely rs
    → keep
        (λ (r : MessageRow).
          not (contains r.id (map (λ (x : MessageRow). x.id) (drop n (newest_first server rs)))))
        rs
      ≡ last n rs
unfolding last
trimmed_lem server n rs h =
    let whole = take-append-drop (length rs - n) rs in
    let timely : IsTimely (earlier n rs ++ last n rs) = rw whole h in
    ap (λ x. keep (λ (r : MessageRow). not (contains r.id (ids x))) rs)
      (ap (drop n) (newest_first-backwards server rs h) ∙ drop-backwards n rs)
    ∙ ap (keep (is_left (earlier n rs))) (sym whole)
    ∙ keep-append (is_left (earlier n rs)) (earlier n rs) (last n rs)
    ∙ ap (λ x. x ++ keep (is_left (earlier n rs)) (last n rs))
        (keep_gone (earlier n rs) (earlier n rs) (contains_own [] (earlier n rs)))
    ∙ keep_left (earlier n rs) (last n rs) (ids_apart (earlier n rs) (last n rs) timely)
