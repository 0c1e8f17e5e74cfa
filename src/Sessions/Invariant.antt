-- ===== src/Sessions/Invariant.antt =====
-- The invariant of the session store of bat/adapters/session_store_memory.py, and that every method
-- keeps it.
use bat_ai.Prelude.{
  ℕ, ◌-◌, ◌≤◌, ◌≡◌, refl, false, not, ◌||◌, List, [], ◌∷◌, Option, some, String, arith, leb, length,
  All, All-append, All-drop, Bool-cases, inl, inr, length-drop, nat_eq, string_eq, ◌==◌, ==_iff,
  is_some, Option-cases,
}
use bat_ai.Prelude.Dict.{
  Dict, get, put, remove, get_or, values, get-put, get-remove, get_or-put, get_or-setdefault,
  HasDistinctKeys, put-HasDistinctKeys, remove-HasDistinctKeys, setdefault-HasDistinctKeys, Entries,
  put-Entries, remove-Entries, get-Entries, remove_all,
}
use bat_ai.Domain.Errors.{BatError, Result, ok, raise, Result-cases}
use bat_ai.Domain.Conversation.{Session, Message, is_expired}
use bat_ai.Sessions.Store.{
  Store, partition, transcripts, open_sessions, open_messages, load, create_session, with_session,
  delete_session, last, append_message, get_history, owned,
}

-- A message that belongs to a session.
abbrev pub Belongs : String → ℕ → Message → Type 0
Belongs tenant id m = (m.tenant_id ≡ tenant) × (m.session_id ≡ id)

-- A transcript holds at most `cap` messages, all of its session.
abbrev pub IsTranscript : String → ℕ → ℕ → List Message → Type 0
IsTranscript tenant cap id l = (length l ≤ cap) × All (Belongs tenant id) l

abbrev pub IsFiled : String → ℕ → Session → Type 0
IsFiled tenant id x = (x.id ≡ id) × (x.tenant_id ≡ tenant)

-- One tenant's partition: no id twice, each session filed under its own id and tenant, exactly the
-- sessions have a transcript, and each transcript is short and of its session.
pub record IsPartition (tenant : String) (cap : ℕ) (d : Dict ℕ Session) (m : Dict ℕ (List Message))
    : Type 0 where
  pub distinct : HasDistinctKeys d
  pub filed : Entries (IsFiled tenant) d
  pub paired : (id : ℕ) → is_some (get d id) ≡ is_some (get m id)
  pub kept : Entries (IsTranscript tenant cap) m

pub record IsValid (s : Store) : Type 0 where
  pub tenants : HasDistinctKeys s.sessions
  pub at :
      (tenant : String)
      → IsPartition tenant s.history_cap (partition s tenant) (transcripts s tenant)

length-last-le : {A : Type 0} (n : ℕ) (l : List A) → length (last n l) ≤ n
unfolding last
length-last-le n l = omega (arith, length-drop (length l - n) l)

pub All-last : {A : Type 0} (P : A → Type 0) (n : ℕ) (l : List A) → All P l → All P (last n l)
unfolding last
All-last P n l h = All-drop P (length l - n) l h

module _ (tenant : String) (cap : ℕ) {d : Dict ℕ Session} {m : Dict ℕ (List Message)} where
  -- A session and its transcript are written together.
  put-IsPartition :
      (id : ℕ) (x : Session) (l : List Message)
      → IsFiled tenant id x
      → IsTranscript tenant cap id l
      → IsPartition tenant cap d m
      → IsPartition tenant cap (put d id x) (put m id l)
  put-IsPartition id x l f t h = record {
    distinct = put-HasDistinctKeys d id x h.distinct;
    filed = put-Entries (IsFiled tenant) d id x f h.filed;
    paired = λ j. ground (arith, get-put d id j x, get-put m id j l, h.paired j);
    kept = put-Entries (IsTranscript tenant cap) m id l t h.kept;
  }

  remove-IsPartition :
      (id : ℕ) → IsPartition tenant cap d m → IsPartition tenant cap (remove d id) (remove m id)
  remove-IsPartition id h = record {
    distinct = remove-HasDistinctKeys d id h.distinct;
    filed = remove-Entries (IsFiled tenant) d id h.filed;
    paired = λ j. ground (arith, get-remove d id j, get-remove m id j, h.paired j);
    kept = remove-Entries (IsTranscript tenant cap) m id h.kept;
  }

pub remove_all-IsPartition :
    (tenant : String) (cap : ℕ) (d : Dict ℕ Session) (m : Dict ℕ (List Message)) (ids : List ℕ)
    → IsPartition tenant cap d m
    → IsPartition tenant cap (remove_all d ids) (remove_all m ids)
unfolding remove_all
remove_all-IsPartition tenant cap d m [] h = h
remove_all-IsPartition tenant cap d m (k ∷ ks) h =
    remove_all-IsPartition tenant cap (remove d k) (remove m k) ks
      (remove-IsPartition tenant cap k h)

-- Writing one tenant's partition keeps the store valid.
write-IsValid :
    (s : Store) (tenant : String) (d : Dict ℕ Session) (m : Dict ℕ (List Message))
    → IsPartition tenant s.history_cap d m
    → IsValid s
    → IsValid (record s { sessions = put s.sessions tenant d; messages = put s.messages tenant m })
write-IsValid s tenant d m h v = record {
  tenants = put-HasDistinctKeys s.sessions tenant d v.tenants;
  at = λ other. elim (Bool-cases (tenant == other)) [
    | inl same ↦ rw (get_or-put, get_or-put, same) (rw (← (==_iff tenant other).0 same) h)
    | inr different ↦ rw (get_or-put, get_or-put, different) (v.at other)
  ];
}

pub open_sessions-IsValid :
    (s : Store) (tenant : String) → IsValid s → IsValid (open_sessions s tenant)
unfolding open_sessions
open_sessions-IsValid s tenant v = record {
  tenants = setdefault-HasDistinctKeys s.sessions tenant [] v.tenants;
  at = λ t. simp get_or-setdefault (v.at t);
}

open_messages-IsValid : (s : Store) (tenant : String) → IsValid s → IsValid (open_messages s tenant)
unfolding open_messages
open_messages-IsValid s tenant v = record {
  tenants = v.tenants;
  at = λ t. simp get_or-setdefault (v.at t);
}

-- A session that loads is in the tenant's partition, and has not expired.
pub load-ok :
    (s : Store) (now : ℕ) (tenant : String) (id : ℕ) {x : Session}
    → load s now tenant id ≡ ok x
    → (get (partition s tenant) id ≡ some x) × (is_expired x now ≡ false)
unfolding load
load-ok s now tenant id h = ground arith

-- What holds of both ways of a loaded method holds of the method.
pub with_session_rule :
    {A : Type 0} (P : Result A × Store → Type 0) (s : Store) (now : ℕ) (tenant : String) (id : ℕ)
    (next : Session → Result A × Store)
    → ((x : Session) → load s now tenant id ≡ ok x → P (next x))
    → ((e : BatError) → load s now tenant id ≡ raise e → P (raise e, open_sessions s tenant))
    → P (with_session s now tenant id next)
unfolding with_session
with_session_rule P s now tenant id next found absent = elim (Result-cases (load s now tenant id)) [
  | inl (x, loaded) ↦ rw (loaded, with_session) (found x loaded)
  | inr (e, failed) ↦ rw (failed, with_session) (absent e failed)
]

pub create_session-IsValid :
    (s : Store) (now id : ℕ) (tenant principal : String) (title : Option String) (ttl : Option ℕ)
    → IsValid s
    → IsValid (create_session s now id tenant principal title ttl).1
unfolding create_session
create_session-IsValid s now id tenant principal title ttl v =
    elim (Bool-cases
      (leb s.max_per_principal (length (owned now principal (values (partition s tenant)))))) [
        | inl full ↦ rw full (open_sessions-IsValid s tenant v)
        | inr room ↦ rw room (
            write-IsValid s tenant _ _
              (put-IsPartition tenant s.history_cap id _ [] (refl, refl) (omega arith, tt)
                (v.at tenant))
              v)
      ]

pub delete_session-IsValid :
    (s : Store) (now : ℕ) (tenant : String) (id : ℕ)
    → IsValid s
    → IsValid (delete_session s now tenant id).1
unfolding delete_session
delete_session-IsValid s now tenant id v =
    with_session_rule (λ r. IsValid r.1) s now tenant id _
      (λ x loaded.
        write-IsValid s tenant _ _ (remove-IsPartition tenant s.history_cap id (v.at tenant)) v)
      (λ e failed. open_sessions-IsValid s tenant v)

All-get_or :
    {A : Type 0} (P : A → Type 0) (d : Dict ℕ (List A)) (id : ℕ)
    → ((l : List A) → get d id ≡ some l → All P l)
    → All P (get_or d id [])
unfolding get_or
All-get_or P d id h = elim (Option-cases (get d id)) [
  | inl absent ↦ rw (absent, get_or, All) tt
  | inr (l, there) ↦ rw (there, get_or, All) (h l there)
]

-- The transcript that a message is added to.
pub old_transcript :
    (s : Store) (tenant : String) (id : ℕ)
    → IsValid s
    → All (Belongs tenant id) (get_or (transcripts s tenant) id [])
old_transcript s tenant id v = All-get_or (Belongs tenant id) (transcripts s tenant) id λ l there.
    (get-Entries (IsTranscript tenant s.history_cap) (transcripts s tenant) id l there
      (v.at tenant).kept).1

pub append_message-IsValid :
    (s : Store) (now : ℕ) (tenant : String) (id : ℕ) (m : Message)
    → IsValid s
    → IsValid (append_message s now tenant id m).1
unfolding append_message
append_message-IsValid s now tenant id m v =
    elim (Bool-cases (not (m.tenant_id == tenant) || not (m.session_id == id))) [
      | inl foreign ↦ rw foreign v
      | inr own ↦
          let belongs : Belongs tenant id m = (
            ground (arith, ==_iff m.tenant_id tenant),
            ground (arith, ==_iff m.tenant_id tenant),
          ) in
          rw own (
            with_session_rule (λ r. IsValid r.1) s now tenant id _
              (λ x loaded.
                write-IsValid s tenant _ _
                  (put-IsPartition tenant s.history_cap id _ _
                    (get-Entries (IsFiled tenant) (partition s tenant) id x
                      (load-ok s now tenant id loaded).0 (v.at tenant).filed)
                    (
                      length-last-le s.history_cap _,
                      All-last (Belongs tenant id) s.history_cap _ (
                          All-append (Belongs tenant id) _ (m ∷ []) (old_transcript s tenant id v)
                            (belongs, tt)),
                    )
                    (v.at tenant))
                  v)
              (λ e failed. open_sessions-IsValid s tenant v))
    ]

pub get_history-IsValid :
    (s : Store) (now : ℕ) (tenant : String) (id limit : ℕ)
    → IsValid s
    → IsValid (get_history s now tenant id limit).1
unfolding get_history
get_history-IsValid s now tenant id limit v =
    with_session_rule (λ r. IsValid r.1) s now tenant id _
      (λ x loaded.
        open_messages-IsValid (open_sessions s tenant) tenant (open_sessions-IsValid s tenant v))
      (λ e failed. open_sessions-IsValid s tenant v)
