-- ===== src/Postgres/Appends.antt =====
-- `append_message` of bat/adapters/session_store_postgres.py beside that of
-- bat/adapters/session_store_memory.py: the bump of the session's row, the new row and the trim.
use mathlib.Core.List.{append-nil}
use bat_ai.Prelude.{
  ℕ, zero, suc, ◌-◌, ◌≡◌, refl, sym, ap, ◌∙◌, inl, inr, Bool, true, false, not, List, [], ◌∷◌, ◌++◌,
  Option, none, some, String, arith, if◌then◌else◌, ◌==◌, ==_iff, ==_refl, ==_apart, string_eq,
  nat_eq, Bool-cases, All, keep, map, length, drop, contains, All-append, All-drop,
}
use bat_ai.Prelude.Dict.{get, put, get_or, values, get_or-put, get-Entries}
use bat_ai.Domain.Conversation.{Session, Message, is_expired, touch, expiry}
use bat_ai.Sessions.Store.{Store, partition, transcripts, last, or_ttl}
use bat_ai.Sessions.Invariant.{IsPartition, IsFiled}
use bat_ai.Postgres.Tables.{MessageRow, Server, to_row, newest_first}
use bat_ai.Postgres.Store.{Postgres, is_live, is_of, bump, update_where, trim}
use bat_ai.Postgres.Rows.{
  keep-append, keep_swap, keep_absorb, keep_agree, keep-update_where, keep-update_unseen,
  values-put,
}
use bat_ai.Postgres.Sorting.{Before, IsTimely, IsTimely-end, IsTimely-drop}
use bat_ai.Postgres.Trim.{trimmed_lem}
use bat_ai.Postgres.Agreement.{kept_rows, IsTranscribed, IsStorable, View, partition-IsKeyed}
use bat_ai.Postgres.Writes.{Elsewhere}

length-map : {A B : Type 0} (f : A → B) (xs : List A) → length (map f xs) ≡ length xs
length-map f [] = refl
length-map f (x ∷ xs) = ap suc (length-map f xs)

drop-map : {A B : Type 0} (f : A → B) (n : ℕ) (xs : List A) → drop n (map f xs) ≡ map f (drop n xs)
drop-map f zero xs = refl
drop-map f (suc n) [] = refl
drop-map f (suc n) (x ∷ xs) = drop-map f n xs

pub last-map :
    {A B : Type 0} (f : A → B) (n : ℕ) (xs : List A) → last n (map f xs) ≡ map f (last n xs)
unfolding last
last-map f n xs =
    ap (λ k. drop (k - n) (map f xs)) (length-map f xs) ∙ drop-map f (length xs - n) xs

map-append_one :
    {A B : Type 0} (f : A → B) (xs : List A) (x : A) → map f (xs ++ x ∷ []) ≡ map f xs ++ f x ∷ []
map-append_one f [] x = refl
map-append_one f (y ∷ xs) x = ap (λ r. f y ∷ r) (map-append_one f xs x)

-- The columns that are updated are those that `touch` changes, where no time to live is zero.
pub bump-touch :
    (at : ℕ) (ttl : Option ℕ) (x : Session)
    → or_ttl ttl none ≡ ttl
    → bump at ttl x ≡ touch x at 1 ttl
unfolding bump touch expiry or_ttl
bump-touch at none x lasting = refl
bump-touch at (some zero) x lasting = absurd (ground (arith, lasting))
bump-touch at (some (suc t)) x lasting = refl

-- The tables after a message.
abbrev pub appended : Server → Postgres → String → ℕ → ℕ → Message → Postgres
appended server p tenant id at m = record p {
  sessions = update_where (is_live at tenant id) (bump at p.ttl) p.sessions;
  messages = trim server p.history_cap tenant id (p.messages ++ to_row server tenant id m ∷ []);
}

module _ (server : Server) (p : Postgres) (tenant : String) (id at : ℕ) (m : Message) where
  row_is_of : is_of tenant id (to_row server tenant id m) ≡ true
  unfolding to_row
  row_is_of = ground (arith, ==_refl tenant, ==_refl id)

  -- The rows of other transcripts.
  others_kept :
      (q : MessageRow → Bool)
      → ((r : MessageRow) → q r ≡ true → is_of tenant id r ≡ false)
      → keep q (trim server p.history_cap tenant id (p.messages ++ to_row server tenant id m ∷ []))
        ≡ keep q p.messages
  unfolding trim
  others_kept q apart =
      let out : q (to_row server tenant id m) ≡ false =
        ground (arith, apart (to_row server tenant id m), row_is_of) in
      keep_absorb q _ (p.messages ++ to_row server tenant id m ∷ [])
        (λ r mine. ground (arith, apart r mine))
      ∙ keep-append q p.messages _
      ∙ rw out (append-nil _)

  pub append-Elsewhere : Elsewhere tenant p (appended server p tenant id at m)
  unfolding bump
  append-Elsewhere = record {
    sessions = λ other foreign.
        keep-update_unseen (is_live at tenant id) _ (bump at p.ttl) p.sessions λ x mine.
          let is : x.tenant_id ≡ tenant = (==_iff x.tenant_id tenant).0 (ground (arith, mine)) in
          (rw is foreign, rw is foreign);
    messages = λ other j foreign.
        others_kept (is_of other j)
          λ r mine. ground (arith, mine, foreign, ==_apart r.tenant_id tenant other);
  }

  -- The transcript is what it was with the new row at its end, cut to the cap.
  own_rows :
      (l : List Message)
      → keep (is_of tenant id) p.messages ≡ map (to_row server tenant id) l
      → IsTimely (map (to_row server tenant id) (l ++ m ∷ []))
      → keep
          (is_of tenant id)
          (trim server p.history_cap tenant id (p.messages ++ to_row server tenant id m ∷ []))
        ≡ map (to_row server tenant id) (last p.history_cap (l ++ m ∷ []))
  unfolding trim
  own_rows l old timely =
      let rows = p.messages ++ to_row server tenant id m ∷ [] in
      let now_there : keep (is_of tenant id) rows ≡ map (to_row server tenant id) (l ++ m ∷ []) =
        keep-append (is_of tenant id) p.messages _
        ∙ rw (row_is_of, old) (sym (map-append_one (to_row server tenant id) l m)) in
      keep_swap (is_of tenant id) _ rows
      ∙ keep_agree _
          (λ r. not (
            contains r.id (
              map (λ (z : MessageRow). z.id)
                (drop p.history_cap (newest_first server (keep (is_of tenant id) rows))))))
          (is_of tenant id) rows (λ r mine. ground (arith, mine))
      ∙ ap
          (λ zs.
            keep
              (λ r. not (
                contains r.id
                  (map (λ (z : MessageRow). z.id) (drop p.history_cap (newest_first server zs)))))
              zs)
          now_there
      ∙ trimmed_lem server p.history_cap _ timely
      ∙ last-map (to_row server tenant id) p.history_cap (l ++ m ∷ [])

module _ (server : Server) (p : Postgres) (s : Store) (tenant : String) (id at : ℕ) (x : Session)
    (m : Message)
    (valid : IsPartition tenant s.history_cap (partition s tenant) (transcripts s tenant))
    (old : View server tenant p (partition s tenant) (transcripts s tenant))
    (there : get (partition s tenant) id ≡ some x) (live : is_expired x at ≡ false) where
  -- The update of the row is the write of the session.
  updated :
      values (put (partition s tenant) id (bump at p.ttl x))
      ≡ keep
          (λ y. y.tenant_id == tenant)
          (update_where (is_live at tenant id) (bump at p.ttl) p.sessions)
  unfolding bump
  updated =
      let filed = get-Entries (IsFiled tenant) (partition s tenant) id x there valid.filed in
      let met : is_live at tenant id x ≡ true =
        ground (arith, live, ==_iff x.tenant_id tenant, ==_iff x.id id, filed.0, filed.1) in
      values-put (λ (y : Session). y.id) (is_live at tenant id) (partition s tenant) id x
        (bump at p.ttl) (λ y mine. ground (arith, mine)) met
        (partition-IsKeyed server tenant p s old valid id) valid.distinct there
      ∙ ap (update_where (is_live at tenant id) (bump at p.ttl)) (sym old.sessions)
      ∙ sym (
          keep-update_where (is_live at tenant id) (λ y. y.tenant_id == tenant) (bump at p.ttl)
            p.sessions (λ y mine. refl))

  pub append-View :
      All
        (λ r. Before r (to_row server tenant id m))
        (map (to_row server tenant id) (get_or (transcripts s tenant) id []))
      → IsStorable server m
      → View server tenant
          (appended server p tenant id at m)
          (put (partition s tenant) id (bump at p.ttl x))
          (put
            (transcripts s tenant)
            id
            (last p.history_cap (get_or (transcripts s tenant) id [] ++ m ∷ [])))
  append-View later storable = record {
    sessions = sym updated;
    transcript = λ j. elim (Bool-cases (id == j)) [
      | inl same ↦ rw (found j, same) (rw (← (==_iff id j).0 same) cut)
      | inr other ↦
          rw (found j, other)
            (kept_rows (appended server p tenant id at m)
              (others_kept server p tenant id at m (is_of tenant j)
                (λ r mine. ground (arith, mine, other, ==_apart r.session_id id j)))
              (old.transcript j))
    ];
  }
    where
      l : List Message
      l = get_or (transcripts s tenant) id []

      found :
          (j : ℕ)
          → get_or (put (transcripts s tenant) id (last p.history_cap (l ++ m ∷ []))) j [] ≡ (
              if id == j
              then last p.history_cap (l ++ m ∷ [])
              else get_or (transcripts s tenant) j [])
      found j = get_or-put (transcripts s tenant) id j _ []

      timely : IsTimely (map (to_row server tenant id) (l ++ m ∷ []))
      timely = rw (map-append_one (to_row server tenant id) l m) (
          IsTimely-end (map (to_row server tenant id) l) (to_row server tenant id m)
            (old.transcript id).timely later)

      cut :
          IsTranscribed server tenant
            (appended server p tenant id at m)
            id
            (last p.history_cap (l ++ m ∷ []))
      cut = record {
        rows = own_rows server p tenant id at m l (old.transcript id).rows timely;
        timely =
            rw (← last-map (to_row server tenant id) p.history_cap (l ++ m ∷ []))
              (unfold last in IsTimely-drop _ _ timely);
        storable =
            unfold last in
            All-drop (IsStorable server) _ (l ++ m ∷ []) (
              All-append (IsStorable server) l (m ∷ []) (old.transcript id).storable
                (storable, tt));
      }
