-- ===== src/Sessions/Calls.antt =====
-- The session store's methods as calls of one tenant, for the claims that hold of all of them.
use bat_ai.Prelude.{
  if_rule, leb, ℕ, ◌≡◌, refl, false, ◌&&◌, List, [], Option, String, arith, nat_eq, string_eq, ◌==◌,
  Bool-cases, inl, inr,
}
use bat_ai.Prelude.Dict.{Dict, put, get_or-put, get_or-setdefault}
use bat_ai.Domain.Errors.{Result, ok, raise}
use bat_ai.Domain.Conversation.{Session, Message, Page}
use bat_ai.Sessions.Store.{
  Store, Cursor, partition, transcripts, open_sessions, open_messages, load, create_session,
  get_session, list_sessions, with_session, delete_session, append_message, get_history,
}
use bat_ai.Sessions.Invariant.{
  IsValid, with_session_rule, open_sessions-IsValid, create_session-IsValid, delete_session-IsValid,
  append_message-IsValid, get_history-IsValid,
}

pub data Call : Type 0 where
  -- the drawn id, the principal, the title and the time to live
  create : ℕ → String → Option String → Option ℕ → Call
  fetch : ℕ → Call
  list : Option String → ℕ → Option Cursor → Call
  delete : ℕ → Call
  append : ℕ → Message → Call
  history : ℕ → ℕ → Call

pub data Answer : Type 0 where
  session : Session → Answer
  page : Page → Answer
  message : Message → Answer
  messages : List Message → Answer
  done : Answer

abbrev pub reply : {A : Type 0} → (A → Answer) → Result A → Result Answer
reply f (ok a) = ok (f a)
reply f (raise e) = raise e

abbrev pub answer : {A : Type 0} → (A → Answer) → Result A × Store → Result Answer × Store
answer f r = (reply f r.0, r.1)

unfoldable pub perform : Store → ℕ → String → Call → Result Answer × Store
perform s now tenant (create id principal title ttl) =
    answer session (create_session s now id tenant principal title ttl)
perform s now tenant (fetch id) = answer session (get_session s now tenant id)
perform s now tenant (list principal limit cursor) =
    answer page (list_sessions s now tenant principal limit cursor)
perform s now tenant (delete id) = answer (λ _. done) (delete_session s now tenant id)
perform s now tenant (append id m) = answer message (append_message s now tenant id m)
perform s now tenant (history id limit) = answer messages (get_history s now tenant id limit)

list_sessions-IsValid :
    (s : Store) (now : ℕ) (tenant : String) (principal : Option String) (limit : ℕ)
    (cursor : Option Cursor)
    → IsValid s
    → IsValid (list_sessions s now tenant principal limit cursor).1
unfolding list_sessions
list_sessions-IsValid s now tenant principal limit cursor v =
    elim (Bool-cases (leb 1 limit && leb limit 100)) [
      | inl fine ↦ rw fine (open_sessions-IsValid s tenant v)
      | inr bad ↦ rw bad v
    ]

-- Every call of every tenant keeps the store well formed: no id twice in a partition, each session
-- filed under its own id and tenant, a transcript for exactly the sessions, none longer than the cap,
-- and no message in a transcript of another session or tenant.
pub perform-IsValid :
    (s : Store) (now : ℕ) (tenant : String) (c : Call)
    → IsValid s
    → IsValid (perform s now tenant c).1
unfolding perform
perform-IsValid s now tenant (create id principal title ttl) v =
    create_session-IsValid s now id tenant principal title ttl v
perform-IsValid s now tenant (fetch id) v = unfold get_session in open_sessions-IsValid s tenant v
perform-IsValid s now tenant (list principal limit cursor) v =
    list_sessions-IsValid s now tenant principal limit cursor v
perform-IsValid s now tenant (delete id) v = delete_session-IsValid s now tenant id v
perform-IsValid s now tenant (append id m) v = append_message-IsValid s now tenant id m v
perform-IsValid s now tenant (history id limit) v = get_history-IsValid s now tenant id limit v

-- What one tenant can see of a store.
pub record SameView (tenant : String) (s t : Store) : Type 0 where
  pub sessions : partition s tenant ≡ partition t tenant
  pub messages : transcripts s tenant ≡ transcripts t tenant
  pub ttl : s.ttl ≡ t.ttl
  pub limit : s.max_per_principal ≡ t.max_per_principal
  pub cap : s.history_cap ≡ t.history_cap

SameView-refl : (tenant : String) (s : Store) → SameView tenant s s
SameView-refl tenant s = record {
  sessions = refl;
  messages = refl;
  ttl = refl;
  limit = refl;
  cap = refl;
}

module _ (s : Store) (tenant other : String) (foreign : (tenant == other) ≡ false) where
  write_elsewhere :
      (d : Dict ℕ Session) (m : Dict ℕ (List Message))
      → SameView other
          (record s { sessions = put s.sessions tenant d; messages = put s.messages tenant m })
          s
  write_elsewhere d m = record {
    sessions = rw (get_or-put, foreign);
    messages = rw (get_or-put, foreign);
    ttl = refl;
    limit = refl;
    cap = refl;
  }

  open_elsewhere : SameView other (open_sessions s tenant) s
  unfolding open_sessions
  open_elsewhere = record {
    sessions = get_or-setdefault s.sessions tenant other [];
    messages = refl;
    ttl = refl;
    limit = refl;
    cap = refl;
  }

  open_both_elsewhere : SameView other (open_messages (open_sessions s tenant) tenant) s
  unfolding open_sessions open_messages
  open_both_elsewhere = record {
    sessions = get_or-setdefault s.sessions tenant other [];
    messages = get_or-setdefault s.messages tenant other [];
    ttl = refl;
    limit = refl;
    cap = refl;
  }

  perform-SameView : (now : ℕ) (c : Call) → SameView other (perform s now tenant c).1 s
  unfolding perform create_session get_session list_sessions delete_session append_message
      get_history
  perform-SameView now (create id principal title ttl) =
      if_rule (λ (r : Result Session × Store). SameView other r.1 s) _ _ _ open_elsewhere
        (write_elsewhere _ _)
  perform-SameView now (fetch id) = open_elsewhere
  perform-SameView now (list principal limit cursor) =
      if_rule (λ (r : Result Page × Store). SameView other r.1 s) _ _ _ open_elsewhere
        (SameView-refl other s)
  perform-SameView now (delete id) =
      with_session_rule (λ r. SameView other r.1 s) s now tenant id _ (λ x _. write_elsewhere _ _)
        (λ e _. open_elsewhere)
  perform-SameView now (append id m) =
      if_rule (λ (r : Result Message × Store). SameView other r.1 s) _ _ _ (SameView-refl other s)
        (with_session_rule (λ r. SameView other r.1 s) s now tenant id _
          (λ x _. write_elsewhere _ _) (λ e _. open_elsewhere))
  perform-SameView now (history id limit) =
      with_session_rule (λ r. SameView other r.1 s) s now tenant id _ (λ x _. open_both_elsewhere)
        (λ e _. open_elsewhere)

module _ {tenant : String} {s t : Store} (v : SameView tenant s t) (now : ℕ) where
  load-SameView : (id : ℕ) → load s now tenant id ≡ load t now tenant id
  unfolding load
  load-SameView id = rw v.sessions

  reply-SameView : (c : Call) → (perform s now tenant c).0 ≡ (perform t now tenant c).0
  unfolding perform create_session get_session list_sessions delete_session append_message
      get_history with_session
  reply-SameView (create id principal title ttl) = ground (arith, v.sessions, v.ttl, v.limit)
  reply-SameView (fetch id) = rw load-SameView
  reply-SameView (list principal limit cursor) = ground (arith, v.sessions)
  reply-SameView (delete id) = ground (arith, load-SameView id)
  reply-SameView (append id m) = ground (arith, load-SameView id)
  reply-SameView (history id limit) = ground (arith, load-SameView id, v.messages)

-- Tenants do not see one another: whatever a tenant calls, the answer to any call of another tenant
-- is the one that it would have had before.
pub perform-isolated :
    (s : Store) (now : ℕ) (tenant other : String) (c d : Call) (later : ℕ)
    → (tenant == other) ≡ false
    → (perform (perform s now tenant c).1 later other d).0 ≡ (perform s later other d).0
perform-isolated s now tenant other c d later foreign =
    reply-SameView (perform-SameView s tenant other foreign now c) later d
