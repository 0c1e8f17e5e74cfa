-- ===== src/Sessions/Listing.antt =====
-- Keyset pagination in bat/adapters/session_store_memory.py: what a chain of pages shows.
use mathlib.Core.List.{append-nil}
use bat_ai.Prelude.{
  take-append-drop, ℕ, zero, suc, ◌≤◌, ◌<◌, ◌≡◌, refl, ap, true, false, List, [], ◌∷◌, ◌++◌, Option,
  none, some, arith, ltb, length, take, drop, keep, All, Bool-cases, inl, inr, ltb→lt, length-take,
}
use bat_ai.Domain.Conversation.{Session}
use bat_ai.Sessions.Order.{precedes, older, IsDescending, none_newer}
use bat_ai.Sessions.Store.{last_cursor, page_of}

take-take : (k : ℕ) (l : List Session) → take k (take (suc k) l) ≡ take k l
take-take zero l = refl
take-take (suc k) [] = refl
take-take (suc k) (x ∷ l) = ap (◌∷◌ x) (take-take k l)

take_all : (n : ℕ) (l : List Session) → length l ≤ n → take n l ≡ l
take_all zero [] h = refl
take_all zero (x ∷ l) h = absurd (omega arith)
take_all (suc n) [] h = refl
take_all (suc n) (x ∷ l) h = ap (◌∷◌ x) (take_all n l (omega arith))

older_irrefl : (x : Session) → older x x ≡ false
older_irrefl x = ground arith

older_asym : (x y : Session) → older x y ≡ true → older y x ≡ false
older_asym x y h = ground arith

-- The last session of the first `k + 1`, when more follow: its cursor selects exactly the rest.
record Resumes (k : ℕ) (l : List Session) : Type 0 where
  at : Session
  cursor : last_cursor (take (suc k) l) ≡ some (at.created_at, at.id)
  rest : keep (λ y. older y at) l ≡ drop (suc k) l
  below : (y : Session) → All (λ z. older z y ≡ true) l → older at y ≡ true

Resumes-lem : (k : ℕ) (l : List Session) → IsDescending l → suc k < length l → Resumes k l
unfolding last_cursor
Resumes-lem k [] d h = absurd (omega arith)
Resumes-lem k (x ∷ []) d h = absurd (omega arith)
Resumes-lem zero (x ∷ y ∷ ys) d h = record {
  at = x;
  cursor = refl;
  rest = rw (older_irrefl x) (none_newer x (y ∷ ys) d.0);
  below = λ z a. a.0;
}
Resumes-lem (suc k) (x ∷ y ∷ ys) d h =
    let r = Resumes-lem k (y ∷ ys) d.1 (omega arith) in
    record {
      at = r.at;
      cursor = r.cursor;
      rest = rw (older_asym r.at x (r.below x d.0)) r.rest;
      below = λ z a. r.below z a.1;
    }

-- Where a page's cursor leads: the sessions that precede it, or none without a cursor.
abbrev pub remaining : Option (ℕ × ℕ) → List Session → List Session
remaining none l = []
remaining (some (created, id)) l = keep (λ x. precedes x created id) l

page_of-items : (limit : ℕ) (l : List Session) → (page_of limit l).items ≡ take limit l
unfolding page_of
page_of-items limit l = take-take limit l

page_of-more :
    (k : ℕ) (l : List Session)
    → suc k < length l
    → (page_of (suc k) l).next_cursor ≡ last_cursor (take (suc k) l)
unfolding page_of
page_of-more k l h =
    let more : ltb (suc k) (length (take (suc (suc k)) l)) ≡ true =
      ground (arith, length-take (suc (suc k)) l) in
    rw (more, take-take)

page_of-end : (k : ℕ) (l : List Session) → length l ≤ suc k → (page_of (suc k) l).next_cursor ≡ none
unfolding page_of
page_of-end k l h =
    let done : ltb (suc k) (length (take (suc (suc k)) l)) ≡ false =
      ground (arith, length-take (suc (suc k)) l) in
    rw done

-- Of a listing in its order and a limit that is not zero, pages neither skip nor repeat: the items
-- of a page, followed by all that precede its cursor, are the listing again; and a page holds at
-- most `limit` items.
pub page_of-remaining :
    (limit : ℕ) (l : List Session)
    → 0 < limit
    → IsDescending l
    → ((page_of limit l).items ++ remaining (page_of limit l).next_cursor l ≡ l)
      × (length (page_of limit l).items ≤ limit)
page_of-remaining zero l h d = elim h [ ]
page_of-remaining (suc k) l h d = (
  elim (Bool-cases (ltb (suc k) (length l))) [
    | inl more ↦
        let r = Resumes-lem k l d (ltb→lt _ _ more) in
        rw (page_of-items, page_of-more k l (ltb→lt _ _ more), r.cursor, r.rest)
          (take-append-drop (suc k) l)
    | inr fits ↦
        let short : length l ≤ suc k = ground arith in
        rw (page_of-items, page_of-end k l short) (rw append-nil (take_all (suc k) l short))
  ],
  rw page_of-items (omega (arith, length-take (suc k) l)),
)
