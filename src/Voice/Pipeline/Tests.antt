-- ===== src/Voice/Pipeline/Tests.antt =====
-- Runs of the pipeline of `src/agent/voice/pipeline.py`, and the theorems about it at them.
use hyprland_agent.Prelude.{◌≡◌, refl, true, false, none, some, [], ◌∷◌, replicate}
use hyprland_agent.Voice.Pipeline.{
  PipelineState, Task, Write, Pipeline, Chunk, started, on_chunk, chunk_in, listen, wake,
  wake_checked, write, record_chunk, on_silence, on_deadline, transcribe_frames,
}
use hyprland_agent.Voice.Pipeline.Reach.{Reached, Moves}
use hyprland_agent.Voice.Pipeline.Raises.{ends_twice, on_chunk-Reached}

abbrev speech : Chunk
speech = record { mono = 7 ∷ []; is_speech = true; now = 10; later = 11 }

abbrev silence : Chunk
silence = record { mono = 0 ∷ []; is_speech = false; now = 90; later = 91 }

abbrev awake : Pipeline
awake = record started {
  state = PipelineState.waking;
  wake_chunk = some (7 ∷ []);
  speech_end_time = 2000000010;
}

abbrev asleep : Pipeline
asleep = record awake {
  state = PipelineState.listening;
  wake_chunk = none;
  tasks = Task.check_wake_word (7 ∷ 0 ∷ []) ∷ [];
}

abbrev recording : Pipeline
recording = record asleep {
  tasks = [];
  tts_stop = true;
  state = PipelineState.recording;
  recording_frames = (7 ∷ 0 ∷ []) ∷ [];
  speech_end_time = 1100;
}

-- The detector's answer, and then the three writes.
abbrev begun : Pipeline
begun = record asleep {
  tasks = [];
  tts_stop = true;
  state = PipelineState.recording;
  writes = Write.set_frames (7 ∷ 0 ∷ []) ∷ Write.reset_silence ∷ Write.set_deadline ∷ [];
}

begun-Reached : Reached 1000 begun
unfolding chunk_in listen wake wake_checked
begun-Reached =
    Reached.step
      (Reached.step (Reached.step Reached.start (Moves.heard started speech))
        (Moves.heard awake silence))
      (Moves.detected asleep [] [] (7 ∷ 0 ∷ []) true refl refl)

recording-Reached : Reached 1000 recording
unfolding write
recording-Reached =
    Reached.step
      (Reached.step
        (Reached.step begun-Reached (
          Moves.wrote begun (Write.set_frames (7 ∷ 0 ∷ []))
            (Write.reset_silence ∷ Write.set_deadline ∷ []) 100 refl))
        (Moves.wrote
          (record begun {
            recording_frames = (7 ∷ 0 ∷ []) ∷ [];
            writes = Write.reset_silence ∷ Write.set_deadline ∷ [];
          })
          Write.reset_silence (Write.set_deadline ∷ []) 100 refl))
      (Moves.wrote
        (record begun { recording_frames = (7 ∷ 0 ∷ []) ∷ []; writes = Write.set_deadline ∷ [] })
        Write.set_deadline [] 100 refl)

on_chunk-Reached_example : (on_chunk recording silence).1 ≡ ends_twice recording silence
on_chunk-Reached_example = on_chunk-Reached 1000 recording silence recording-Reached

-- The silence and the deadline end the recording in one chunk.
raises :
    (on_chunk
      (record recording { recording_frames = replicate 20 (7 ∷ []); silence_blocks = 12 })
      (record silence { now = 2000; later = 2000 })).1
    ≡ true
unfolding chunk_in record_chunk on_silence on_deadline transcribe_frames
raises = refl

-- Before the deadline of the recording is set, that of the wake phase ends it.
ended_at_once :
    (on_chunk begun (record silence { now = 3000000000; later = 3000000000 })).0.state
    ≡ PipelineState.transcribing
unfolding chunk_in record_chunk on_silence on_deadline transcribe_frames
ended_at_once = refl
