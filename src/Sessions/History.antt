-- ===== src/Sessions/History.antt =====
-- What is read back after a message is appended, in bat/adapters/session_store_memory.py.
use native.Mathlib.Nat.{zero-add, suc-add}
use bat_ai.Prelude.{
  ℕ, zero, suc, ◌+◌, ◌-◌, ◌≡◌, refl, ap, ◌∙◌, false, List, [], ◌∷◌, ◌++◌, Option, none, some,
  String, arith, nat_eq, string_eq, min, length, drop, length-drop, ==_refl, ==_iff,
}
use bat_ai.Prelude.Dict.{get, put, get_or, get-put, get_or-put}
use bat_ai.Domain.Errors.{ok}
use bat_ai.Domain.Conversation.{Session, Message, is_expired, touch}
use bat_ai.Sessions.Store.{
  Store, partition, transcripts, load, last, append_message, get_history, with_session,
}
use bat_ai.Sessions.Invariant.{load-ok}

drop-drop : {A : Type 0} (m n : ℕ) (l : List A) → drop m (drop n l) ≡ drop (n + m) l
drop-drop m zero l = rw zero-add
drop-drop zero (suc n) [] = rw suc-add
drop-drop (suc m) (suc n) [] = rw suc-add
drop-drop m (suc n) (x ∷ l) = rw (suc-add, drop-drop m n l)

last-last : {A : Type 0} (m n : ℕ) (l : List A) → last m (last n l) ≡ last (min m n) l
unfolding last
last-last m n l =
    drop-drop (length (drop (length l - n) l) - m) (length l - n) l
    ∙ ap (λ k. drop k l) (omega (arith, length-drop (length l - n) l))

-- Activity keeps a session that has not expired alive at the moment of the activity.
touch-live :
    (x : Session) (now n : ℕ) (ttl : Option ℕ)
    → is_expired x now ≡ false
    → is_expired (touch x now n ttl) now ≡ false
unfolding touch is_expired
touch-live x now n none h = h
touch-live x now n (some zero) h = h
touch-live x now n (some (suc t)) h = ground arith

load-live :
    (s : Store) (now : ℕ) (tenant : String) (id : ℕ) (x : Session)
    → get (partition s tenant) id ≡ some x
    → is_expired x now ≡ false
    → load s now tenant id ≡ ok x
unfolding load
load-live s now tenant id x there live = ground arith

-- The store after a message was appended to a session that loads.
appended : Store → ℕ → String → ℕ → Message → Session → Store
appended s now tenant id m x = record s {
  messages = put s.messages tenant (
      put (transcripts s tenant) id
        (last s.history_cap (get_or (transcripts s tenant) id [] ++ m ∷ [])));
  sessions = put s.sessions tenant (put (partition s tenant) id (touch x now 1 s.ttl));
}

append_message-appended :
    (s : Store) (now : ℕ) (tenant : String) (id : ℕ) (m : Message) (x : Session)
    → m.tenant_id ≡ tenant
    → m.session_id ≡ id
    → load s now tenant id ≡ ok x
    → append_message s now tenant id m ≡ (ok m, appended s now tenant id m x)
unfolding append_message with_session appended
append_message-appended s now tenant id m x own_tenant own_session loaded =
    ground (arith, ==_iff m.tenant_id tenant)

get_history-loaded :
    (s : Store) (now : ℕ) (tenant : String) (id limit : ℕ) (x : Session)
    → load s now tenant id ≡ ok x
    → (get_history s now tenant id limit).0 ≡ ok (last limit (get_or (transcripts s tenant) id []))
unfolding get_history with_session
get_history-loaded s now tenant id limit x loaded = ground arith

transcript-appended :
    (s : Store) (now : ℕ) (tenant : String) (id : ℕ) (m : Message) (x : Session)
    → get_or (transcripts (appended s now tenant id m x) tenant) id []
      ≡ last s.history_cap (get_or (transcripts s tenant) id [] ++ m ∷ [])
unfolding appended
transcript-appended s now tenant id m x = simp (get_or-put, ==_refl)

load-appended :
    (s : Store) (now : ℕ) (tenant : String) (id : ℕ) (m : Message) (x : Session)
    → load s now tenant id ≡ ok x
    → load (appended s now tenant id m x) now tenant id ≡ ok (touch x now 1 s.ttl)
load-appended s now tenant id m x loaded =
    load-live (appended s now tenant id m x) now tenant id (touch x now 1 s.ttl)
      (unfold appended in simp (get_or-put, get-put, ==_refl))
      (touch-live x now 1 s.ttl (load-ok s now tenant id loaded).1)

-- A message of a session that loads, appended to it by its own tenant, is accepted; the session
-- then still loads, with one more message counted and the moment of the update, and otherwise as it
-- was but for its expiry; and a read of the history shows the last of the old messages and the new
-- one, as many as the limit of the read and the cap of the store allow.
pub get_history-append_message :
    (s : Store) (now : ℕ) (tenant : String) (id limit : ℕ) (m : Message) (x : Session)
    → m.tenant_id ≡ tenant
    → m.session_id ≡ id
    → load s now tenant id ≡ ok x
    → ((append_message s now tenant id m).0 ≡ ok m)
      × ((y : Session) × (load (append_message s now tenant id m).1 now tenant id ≡ ok y)
          × (y.message_count ≡ x.message_count + 1)
          × (y.updated_at ≡ now)
          × (record y {
            message_count = x.message_count;
            updated_at = x.updated_at;
            expires_at = x.expires_at;
          }
              ≡ x))
      × ((get_history (append_message s now tenant id m).1 now tenant id limit).0
          ≡ ok (last (min limit s.history_cap) (get_or (transcripts s tenant) id [] ++ m ∷ [])))
get_history-append_message s now tenant id limit m x own_tenant own_session loaded =
    let stored = append_message-appended s now tenant id m x own_tenant own_session loaded in
    let again = load-appended s now tenant id m x loaded in
    rw stored (
      refl,
      (
        touch x now 1 s.ttl,
        again,
        unfold touch in refl,
        unfold touch in refl,
        unfold touch in refl,
      ),
      get_history-loaded (appended s now tenant id m x) now tenant id limit (touch x now 1 s.ttl)
            again
          ∙ ap ok (
              ap (last limit) (transcript-appended s now tenant id m x)
              ∙ last-last limit s.history_cap _),
    )
