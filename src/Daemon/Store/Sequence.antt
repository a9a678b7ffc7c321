-- ===== src/Daemon/Store/Sequence.antt =====
-- Series of store operations, with the cache and without.
use hyprland_agent.Prelude.{
  ℕ, Text, ◌≡◌, refl, sym, ap, ap₂, ◌∙◌, Option, none, some, List, [], ◌∷◌, arith, text_key,
}
use hyprland_agent.Schemas.{RunStatus, RunSummary, RunRecord, RunEventRecord, Number}
use hyprland_agent.Daemon.Store.Writes
use hyprland_agent.Daemon.Store.Writes.{Tables, RunStore}
use hyprland_agent.Daemon.Store.Reads
use hyprland_agent.Daemon.Store.Reads.{read_record}
use hyprland_agent.Daemon.Store.Entries.{IsCoherent}
use hyprland_agent.Daemon.Store.Cache.{
  insert_run-IsCoherent, update_run_status-IsCoherent, update_run_metrics-IsCoherent,
  append_event-IsCoherent, get_run-read_record,
}

-- A call of the store, with the clock readings that it makes.
pub data Call : Type 0 where
  insert_run : RunSummary → Call
  update_run_status : Text → RunStatus → Option ℕ → Option Text → ℕ → Call
  append_event : Text → RunEventRecord → Call
  update_run_metrics : Text → Option ℕ → Option ℕ → Option Number → Call
  upsert_run_outcome : Text → Text → Number → Text → Option Text → ℕ → Call
  insert_feedback : Text → Text → Option Text → ℕ → Call
  get_run : Text → Call

pub data Reply : Type 0 where
  done integrity_error : Reply
  feedback_id : ℕ → Reply
  found : Option RunRecord → Reply

abbrev pub finished : RunStore → Option RunStore → RunStore × Reply
finished s none = (s, integrity_error)
finished s (some s') = (s', done)

abbrev pub call : RunStore → Call → RunStore × Reply
call s (Call.insert_run run) = finished s (Writes.insert_run s run)
call s (Call.update_run_status id status ended error now) =
    (Writes.update_run_status s id status ended error now, done)
call s (Call.append_event id event) = finished s (Writes.append_event s id event)
call s (Call.update_run_metrics id i a d) = (Writes.update_run_metrics s id i a d, done)
call s (Call.upsert_run_outcome id outcome score source rationale now) =
    (Writes.upsert_run_outcome s id outcome score source rationale now, done)
call s (Call.insert_feedback id kind comment now) =
    let (n, s') = Writes.insert_feedback s id kind comment now in (s', feedback_id n)
call s (Call.get_run id) = let (r, s') = Reads.get_run s id in (s', found r)

abbrev pub replies : RunStore → List Call → List Reply
replies s [] = []
replies s (c ∷ cs) = let (s', r) = call s c in r ∷ replies s' cs

-- The store without a cache: it is empty before each call.
abbrev pub uncached : Tables → RunStore
uncached t = record { tables = t; lru = [] }

abbrev pub uncached_replies : Tables → List Call → List Reply
uncached_replies t [] = []
uncached_replies t (c ∷ cs) = let (s', r) = call (uncached t) c in r ∷ uncached_replies s'.tables cs

uncached-IsCoherent : (t : Tables) → IsCoherent (uncached t)
uncached-IsCoherent t = record { fresh = tt; bounded = omega arith }

finished-IsCoherent :
    (s : RunStore) (o : Option RunStore)
    → IsCoherent s
    → ((s' : RunStore) → o ≡ some s' → IsCoherent s')
    → IsCoherent (finished s o).0
finished-IsCoherent s none h next = h
finished-IsCoherent s (some s') h next = next s' refl

-- One call: the reply, the tables after it, and the coherence of the cache.
record Same (s : RunStore) (c : Call) : Type 0 where
  reply : (call s c).1 ≡ (call (uncached s.tables) c).1
  tables : (call s c).0.tables ≡ (call (uncached s.tables) c).0.tables
  coherent : IsCoherent (call s c).0

Same-call : (s : RunStore) (c : Call) → IsCoherent s → Same s c
unfolding Writes.insert_run Writes.append_event Writes.update_run_status Writes.update_run_metrics
    Writes.upsert_run_outcome Writes.insert_feedback read_record
Same-call s (Call.insert_run run) h = record {
  reply = ground arith;
  tables = ground arith;
  coherent =
      finished-IsCoherent s (Writes.insert_run s run) h
        (λ s' e. insert_run-IsCoherent s s' run h e);
}
Same-call s (Call.append_event id event) h = record {
  reply = ground arith;
  tables = ground arith;
  coherent =
      finished-IsCoherent s (Writes.append_event s id event) h
        (λ s' e. append_event-IsCoherent s s' id event h e);
}
Same-call s (Call.update_run_status id status ended error now) h = record {
  reply = refl;
  tables = refl;
  coherent = update_run_status-IsCoherent s id status ended error now h;
}
Same-call s (Call.update_run_metrics id i a d) h = record {
  reply = refl;
  tables = ground arith;
  coherent = update_run_metrics-IsCoherent s id i a d h;
}
Same-call s (Call.upsert_run_outcome id outcome score source rationale now) h = record {
  reply = refl;
  tables = refl;
  coherent = record { fresh = h.fresh; bounded = h.bounded };
}
Same-call s (Call.insert_feedback id kind comment now) h = record {
  reply = refl;
  tables = refl;
  coherent = record { fresh = h.fresh; bounded = h.bounded };
}
Same-call s (Call.get_run id) h =
    let (answer, tables, coherent) = get_run-read_record s id h in
    let (answer', tables', _) =
      get_run-read_record (uncached s.tables) id (uncached-IsCoherent s.tables) in
    record {
      reply = ap found (answer ∙ sym answer');
      tables = tables ∙ sym tables';
      coherent = coherent;
    }

-- From a coherent store, such as an empty one, any series of calls, one after the other, gets the
-- replies that a store without a cache gives.
pub replies-uncached :
    (s : RunStore) (cs : List Call) → IsCoherent s → replies s cs ≡ uncached_replies s.tables cs
replies-uncached s [] h = refl
replies-uncached s (c ∷ cs) h =
    let same = Same-call s c h in
    ap₂ ◌∷◌ same.reply
      (replies-uncached (call s c).0 cs same.coherent ∙ ap (λ t. uncached_replies t cs) same.tables)
