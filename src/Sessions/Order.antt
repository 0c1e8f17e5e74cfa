-- ===== src/Sessions/Order.antt =====
-- The order of a listing in bat/adapters/session_store_memory.py: newest first, by `(created_at, id)`.
use bat_ai.Prelude.{
  ℕ, ◌≡◌, Bool, true, false, ◌&&◌, ◌||◌, List, [], ◌∷◌, arith, if◌then◌else◌, ltb, nat_beq, All,
  keep, refl, inl, inr, Bool-cases,
}
use bat_ai.Domain.Conversation.{Session}

-- `(a.created_at, a.id) < (created, id)`
abbrev pub precedes : Session → ℕ → ℕ → Bool
precedes a created id = ltb a.created_at created || (nat_beq a.created_at created && ltb a.id id)

abbrev pub older : Session → Session → Bool
older a b = precedes a b.created_at b.id

-- The sort of a listing, as an insertion sort: no two sessions of a store have the same id.
unfoldable pub insert : Session → List Session → List Session
insert x [] = x ∷ []
insert x (y ∷ ys) = let rest = insert x ys in if older x y then y ∷ rest else x ∷ y ∷ ys

unfoldable pub newest_first : List Session → List Session
unfolding insert
newest_first [] = []
newest_first (x ∷ xs) = insert x (newest_first xs)

-- Each session is strictly newer than all that follow.
abbrev pub IsDescending : List Session → Type 0
IsDescending [] = Unit
IsDescending (x ∷ xs) = All (λ y. older y x ≡ true) xs × IsDescending xs

older_trans : (a b c : Session) → older a b ≡ true → older b c ≡ true → older a c ≡ true
older_trans a b c h k = ground arith

-- Of two sessions with different ids one is older.
older_total : (a b : Session) → nat_beq a.id b.id ≡ false → older a b ≡ false → older b a ≡ true
older_total a b h k = ground arith

All-older :
    (x y : Session) (xs : List Session)
    → older x y ≡ true
    → All (λ z. older z x ≡ true) xs
    → All (λ z. older z y ≡ true) xs
All-older x y [] h k = tt
All-older x y (z ∷ zs) h k = (older_trans z x y k.0 h, All-older x y zs h k.1)

All-insert :
    (P : Session → Type 0) (x : Session) (ys : List Session) → P x → All P ys → All P (insert x ys)
unfolding insert
All-insert P x [] h k = (h, tt)
All-insert P x (y ∷ ys) h k = elim (Bool-cases (older x y)) [
  | inl e ↦ rw e (k.0, All-insert P x ys h k.1)
  | inr e ↦ rw e (h, k)
]

insert-IsDescending :
    (x : Session) (ys : List Session)
    → All (λ y. nat_beq x.id y.id ≡ false) ys
    → IsDescending ys
    → IsDescending (insert x ys)
unfolding insert
insert-IsDescending x [] ne d = (tt, tt)
insert-IsDescending x (y ∷ ys) ne d = elim (Bool-cases (older x y)) [
  | inl e ↦ rw e (All-insert (λ z. older z y ≡ true) x ys e d.0, insert-IsDescending x ys ne.1 d.1)
  | inr e ↦ let newer = older_total x y ne.0 e in rw e ((newer, All-older y x ys newer d.0), d)
]

-- The ids of a list are distinct.
abbrev pub HasDistinctIds : List Session → Type 0
HasDistinctIds [] = Unit
HasDistinctIds (x ∷ xs) = All (λ y. nat_beq x.id y.id ≡ false) xs × HasDistinctIds xs

All-newest_first : (P : Session → Type 0) (xs : List Session) → All P xs → All P (newest_first xs)
unfolding newest_first
All-newest_first P [] h = tt
All-newest_first P (x ∷ xs) h = All-insert P x (newest_first xs) h.0 (All-newest_first P xs h.1)

-- Of sessions with different ids, the sort of a listing is strictly descending.
pub newest_first-IsDescending :
    (xs : List Session) → HasDistinctIds xs → IsDescending (newest_first xs)
unfolding newest_first
newest_first-IsDescending [] h = tt
newest_first-IsDescending (x ∷ xs) h =
    insert-IsDescending x (newest_first xs) (All-newest_first _ xs h.0)
      (newest_first-IsDescending xs h.1)

-- What follows a session in a descending list is what precedes its cursor.
pub none_newer :
    (x : Session) (xs : List Session)
    → All (λ y. older y x ≡ true) xs
    → keep (λ s. older s x) xs ≡ xs
none_newer x [] h = refl
none_newer x (y ∷ ys) h = rw (h.0, none_newer x ys h.1)
