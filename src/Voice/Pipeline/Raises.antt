-- ===== src/Voice/Pipeline/Raises.antt =====
-- When the audio callback of `src/agent/voice/pipeline.py` raises.
use hyprland_agent.Prelude.{
  ℕ, suc, ◌≡◌, refl, sym, ap, ◌∙◌, Bool, true, false, not, ◌&&◌, ◌||◌, Option, none, some, List, [],
  ◌∷◌, ◌++◌, length, length-append, is_some, ltb, leb, Bool-cases, inl, inr, arith,
}
use hyprland_agent.Voice.Pipeline.{
  PipelineState, Audio, Pipeline, Chunk, transcribe_frames, and_then, is_silent, on_silence,
  is_over, on_deadline, wake, record_chunk, chunk_in, on_chunk,
}
use hyprland_agent.Voice.Pipeline.Reach.{
  Reached, Reached-IsValid, IsValid, has_frames, has_frames-append,
}

abbrev is_recording : PipelineState → Bool
is_recording PipelineState.recording = true
is_recording s = false

-- A chunk without speech is the thirteenth in a row, at least 20 frames are there and the
-- deadline has passed.
abbrev pub ends_twice : Pipeline → Chunk → Bool
ends_twice p c =
    is_recording p.state
    && (not c.is_speech
        && (leb 13 (suc p.silence_blocks)
            && (leb 20 (length p.recording_frames) && ltb p.speech_end_time c.later)))

frames_some :
    (p : Pipeline) (frames : List Audio)
    → has_frames frames ≡ true
    → (transcribe_frames p frames).1 ≡ false
unfolding transcribe_frames
frames_some p [] h = cc
frames_some p (a ∷ rest) h = refl

-- The second call of `_trigger_transcribe`, on the frames that the first has cleared.
again :
    (p : Pipeline) (c : Chunk) (frames : List Audio)
    → has_frames frames ≡ true
    → (and_then (transcribe_frames p frames) (on_deadline c)).1 ≡ ltb p.speech_end_time c.later
unfolding transcribe_frames on_deadline
again p c [] h = cc
again p c (a ∷ rest) h = ground arith

-- One call at most, on frames.
once :
    (p : Pipeline) (c : Chunk) → has_frames p.recording_frames ≡ true → (on_deadline c p).1 ≡ false
unfolding on_deadline
once p c h = elim (Bool-cases (is_over p c)) [
  | inl e ↦ rw e (frames_some p p.recording_frames h)
  | inr e ↦ rw e
]

-- The test of the silence, in whole blocks and frames.
is_silent_lem :
    (p : Pipeline) (late : Bool)
    → is_silent (record p { silence_blocks = suc p.silence_blocks }) && late
      ≡ leb 13 (suc p.silence_blocks) && (leb 21 (length p.recording_frames) && late)
is_silent_lem p late = ground arith

silence_raises :
    (p : Pipeline) (c : Chunk) (is_speech : Bool)
    → has_frames p.recording_frames ≡ true
    → (and_then (on_silence p is_speech) (on_deadline c)).1 ≡ (
        not is_speech
        && (leb 13 (suc p.silence_blocks)
            && (leb 21 (length p.recording_frames) && ltb p.speech_end_time c.later)))
unfolding on_silence
silence_raises p c true h = once (record p { silence_blocks = 0 }) c h
silence_raises p c false h =
    let counted : Pipeline = record p { silence_blocks = suc p.silence_blocks } in
    let late = ltb p.speech_end_time c.later in
    elim (Bool-cases (is_silent counted)) [
      | inl s ↦ rw s (
          again counted c p.recording_frames h ∙ ap (λ b. b && late) (sym s) ∙ is_silent_lem p late)
      | inr s ↦ rw s (once counted c h ∙ ap (λ b. b && late) (sym s) ∙ is_silent_lem p late)
    ]

one_more :
    (frames : List Audio) (a : Audio) → leb 21 (length (frames ++ a ∷ [])) ≡ leb 20 (length frames)
one_more frames a = ground (arith, length-append frames (a ∷ []))

record_raises :
    (p : Pipeline) (c : Chunk)
    → (record_chunk p c).1 ≡ (
        not c.is_speech
        && (leb 13 (suc p.silence_blocks)
            && (leb 20 (length p.recording_frames) && ltb p.speech_end_time c.later)))
unfolding record_chunk
record_raises p c =
    let grown : Pipeline = record p { recording_frames = p.recording_frames ++ c.mono ∷ [] } in
    silence_raises grown c c.is_speech (has_frames-append p.recording_frames c.mono)
    ∙ ap
        (λ b.
          not c.is_speech
          && (leb 13 (suc p.silence_blocks) && (b && ltb p.speech_end_time c.later)))
        (one_more p.recording_frames c.mono)

wake_raises :
    (p : Pipeline) (c : Chunk) (chunk : Option Audio)
    → is_some chunk ≡ true
    → (wake p c chunk).1 ≡ false
unfolding wake
wake_raises p c none h = cc
wake_raises p c (some audio) h =
    elim (Bool-cases (not c.is_speech || ltb p.speech_end_time c.now)) [
      | inl e ↦ rw e refl
      | inr e ↦ rw e refl
    ]

chunk_in_raises :
    (s : PipelineState) (p : Pipeline) (c : Chunk)
    → p.state ≡ s
    → IsValid p
    → (chunk_in s p c).1 ≡ (
        is_recording s
        && (not c.is_speech
            && (leb 13 (suc p.silence_blocks)
                && (leb 20 (length p.recording_frames) && ltb p.speech_end_time c.later))))
unfolding chunk_in
chunk_in_raises PipelineState.listening p c r h = refl
chunk_in_raises PipelineState.waking p c r h = wake_raises p c p.wake_chunk (rw r at h)
chunk_in_raises PipelineState.recording p c r h = record_raises p c
chunk_in_raises PipelineState.transcribing p c r h = refl
chunk_in_raises PipelineState.submitting p c r h = refl

-- In every state that the pipeline reaches, a chunk makes the audio callback raise exactly when
-- the pipeline records, the chunk is the thirteenth in a row without speech or later, it follows at
-- least 20 frames, and the deadline of the recording has passed: the recording is then ended twice.
pub on_chunk-Reached :
    (record_timeout : ℕ) (p : Pipeline) (c : Chunk)
    → Reached record_timeout p
    → (on_chunk p c).1 ≡ ends_twice p c
on_chunk-Reached record_timeout p c r =
    chunk_in_raises p.state p c refl (Reached-IsValid record_timeout p r)
