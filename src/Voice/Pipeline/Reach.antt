-- ===== src/Voice/Pipeline/Reach.antt =====
-- The steps of the pipeline of `src/agent/voice/pipeline.py`, and what holds in every state that
-- they reach. A callback of the audio thread is one step. On the event loop the part of a coroutine
-- between two waits is one step where it makes one write that the callback can see, and otherwise
-- one step for each such write; a callback may come between them, another coroutine may not.
use hyprland_agent.Prelude.{
  ℕ, suc, ◌≡◌, refl, Text, Bool, true, false, not, ◌||◌, Option, none, some, List, [], ◌∷◌, ◌++◌,
  is_some, ltb, if◌then◌else◌, Bool-cases, inl, inr,
}
use hyprland_agent.Voice.Pipeline.{
  PipelineState, Audio, Task, Write, Pipeline, Chunk, Called, started, with_task, transcribe_frames,
  trigger_transcribe, and_then, is_silent, on_silence, is_over, on_deadline, listen, wake,
  record_chunk, chunk_in, on_chunk, wake_checked, write, transcribed, submitted,
}

module _ (record_timeout : ℕ) where
  -- One step, with the tasks that are left when a coroutine resumes.
  pub data Moves : Pipeline → Pipeline → Type 0 where
    heard : (p : Pipeline) (c : Chunk) → Moves p (on_chunk p c).0
    detected :
        (p : Pipeline) (before after : List Task) (audio : Audio) (is_word : Bool)
        → p.tasks ≡ before ++ Task.check_wake_word audio ∷ after
        → p.writes ≡ []
        → Moves p (wake_checked (record p { tasks = before ++ after }) audio is_word)
    heard_text :
        (p : Pipeline) (before after : List Task) (audio : Audio) (text : Option Text)
        → p.tasks ≡ before ++ Task.transcribe audio ∷ after
        → p.writes ≡ []
        → Moves p (transcribed (record p { tasks = before ++ after }) text)
    answered :
        (p : Pipeline) (before after : List Task) (text : Text)
        → p.tasks ≡ before ++ Task.submit text ∷ after
        → p.writes ≡ []
        → Moves p (submitted (record p { tasks = before ++ after }))
    wrote :
        (p : Pipeline) (w : Write) (ws : List Write) (now : ℕ)
        → p.writes ≡ w ∷ ws
        → Moves p (write record_timeout now w (record p { writes = ws }))

  pub data Reached : Pipeline → Type 0 where
    start : Reached started
    step : {p q : Pipeline} → Reached p → Moves p q → Reached q

abbrev pub has_frames : List Audio → Bool
has_frames [] = false
has_frames (a ∷ rest) = true

-- What the state says of the chunk: while waking there is one.
abbrev pub fits : PipelineState → Option Audio → Bool
fits PipelineState.listening chunk = true
fits PipelineState.waking chunk = is_some chunk
fits PipelineState.recording chunk = true
fits PipelineState.transcribing chunk = true
fits PipelineState.submitting chunk = true

abbrev pub IsValid : Pipeline → Type 0
IsValid p = fits p.state p.wake_chunk ≡ true

transcribe_frames-IsValid :
    (p : Pipeline) (frames : List Audio) → IsValid (transcribe_frames p frames).0
unfolding transcribe_frames
transcribe_frames-IsValid p [] = refl
transcribe_frames-IsValid p (frame ∷ frames) = refl

pub has_frames-append : (frames : List Audio) (a : Audio) → has_frames (frames ++ a ∷ []) ≡ true
has_frames-append [] a = refl
has_frames-append (f ∷ fs) a = refl

if-IsValid : (b : Bool) (x y : Called) → IsValid x.0 → IsValid y.0 → IsValid (if b then x else y).0
if-IsValid true x y hx hy = hx
if-IsValid false x y hx hy = hy

on_silence-IsValid :
    (p : Pipeline) (is_speech : Bool) → IsValid p → IsValid (on_silence p is_speech).0
unfolding on_silence
on_silence-IsValid p true h = h
on_silence-IsValid p false h =
    let counted : Pipeline = record p { silence_blocks = suc p.silence_blocks } in
    if-IsValid (is_silent counted) (trigger_transcribe counted) (counted, false)
      (transcribe_frames-IsValid counted p.recording_frames) h

on_deadline-IsValid : (c : Chunk) (p : Pipeline) → IsValid p → IsValid (on_deadline c p).0
unfolding on_deadline
on_deadline-IsValid c p h =
    if-IsValid (is_over p c) (trigger_transcribe p) (p, false)
      (transcribe_frames-IsValid p p.recording_frames) h

and_then-IsValid : (r : Called) (c : Chunk) → IsValid r.0 → IsValid (and_then r (on_deadline c)).0
and_then-IsValid (p, true) c h = h
and_then-IsValid (p, false) c h = on_deadline-IsValid c p h

record_chunk-IsValid :
    (p : Pipeline) (c : Chunk) → p.state ≡ PipelineState.recording → IsValid (record_chunk p c).0
unfolding record_chunk
record_chunk-IsValid p c r =
    let grown : Pipeline = record p { recording_frames = p.recording_frames ++ c.mono ∷ [] } in
    let valid : IsValid grown = rw r refl in
    and_then-IsValid (on_silence grown c.is_speech) c (on_silence-IsValid grown c.is_speech valid)

wake-IsValid :
    (p : Pipeline) (c : Chunk) (chunk : Option Audio)
    → p.state ≡ PipelineState.waking
    → IsValid p
    → IsValid (wake p c chunk).0
unfolding wake
wake-IsValid p c none r h = h
wake-IsValid p c (some audio) r h =
    if-IsValid (not c.is_speech || ltb p.speech_end_time c.now)
      (
        with_task (record p { state = PipelineState.listening; wake_chunk = none })
            (Task.check_wake_word (audio ++ c.mono)),
        false,
      )
      (record p { wake_chunk = some (audio ++ c.mono) }, false) refl (rw r refl)

chunk_in-IsValid :
    (s : PipelineState) (p : Pipeline) (c : Chunk)
    → p.state ≡ s
    → IsValid p
    → IsValid (chunk_in s p c).0
unfolding chunk_in listen
chunk_in-IsValid PipelineState.listening p c r h = elim (Bool-cases c.is_speech) [
  | inl e ↦ rw e refl
  | inr e ↦ rw e h
]
chunk_in-IsValid PipelineState.waking p c r h = wake-IsValid p c p.wake_chunk r h
chunk_in-IsValid PipelineState.recording p c r h = record_chunk-IsValid p c r
chunk_in-IsValid PipelineState.transcribing p c r h = h
chunk_in-IsValid PipelineState.submitting p c r h = h

Moves-IsValid :
    (record_timeout : ℕ) (p q : Pipeline) → Moves record_timeout p q → IsValid p → IsValid q
unfolding wake_checked transcribed write
Moves-IsValid t p q (Moves.heard p' c) h = chunk_in-IsValid p.state p c refl h
Moves-IsValid t p q (Moves.detected p' before after audio true e idle) h = refl
Moves-IsValid t p q (Moves.detected p' before after audio false e idle) h = h
Moves-IsValid t p q (Moves.heard_text p' before after audio none e idle) h = refl
Moves-IsValid t p q (Moves.heard_text p' before after audio (some []) e idle) h = refl
Moves-IsValid t p q (Moves.heard_text p' before after audio (some (c ∷ cs)) e idle) h = refl
Moves-IsValid t p q (Moves.answered p' before after text e idle) h = refl
Moves-IsValid t p q (Moves.wrote p' (Write.set_frames audio) ws now e) h = h
Moves-IsValid t p q (Moves.wrote p' (Write.reset_silence) ws now e) h = h
Moves-IsValid t p q (Moves.wrote p' (Write.set_deadline) ws now e) h = h
Moves-IsValid t p q (Moves.wrote p' (Write.set_listening) ws now e) h = refl

-- In every state that the pipeline reaches: while it waits for a wake word it has a chunk.
pub Reached-IsValid : (record_timeout : ℕ) (p : Pipeline) → Reached record_timeout p → IsValid p
Reached-IsValid record_timeout p (Reached.start) = refl
Reached-IsValid record_timeout p (Reached.step {p = q} r m) =
    Moves-IsValid record_timeout q p m (Reached-IsValid record_timeout q r)
