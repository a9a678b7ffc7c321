-- ===== src/Daemon/PubSub/Tests.antt =====
-- The bus at concrete inputs.
use hyprland_agent.Prelude.{ℕ, ◌≡◌, refl, true, false, none, some, List, [], ◌∷◌, nat_key}
use hyprland_agent.Daemon.PubSub.{
  Topic, DropPolicy, Subscriber, PubSub, topic_config, put_nowait, empty_bus, subscribe,
  unsubscribe, new_subscriber, add_subscriber,
}
use hyprland_agent.Daemon.PubSub.Delivery.{Messages, publish_all, on_topic}
use hyprland_agent.Daemon.PubSub.Silent.{Call, apply_calls, unsubscribe-silent}
use hyprland_agent.Daemon.PubSub.Promise.{empty_bus-IsValid, kept, subscribe-receives}

-- Nobody can subscribe to the voice topic: it has no entry in the table.
no_voice : subscribe (empty_bus {A = ℕ}) Topic.voice ≡ none
unfolding subscribe topic_config
no_voice = refl

slow : Subscriber ℕ
slow = record {
  capacity = 2;
  policy = DropPolicy.drop_oldest;
  queue = 1 ∷ 2 ∷ [];
  disconnected = false;
}

drops_the_oldest : (put_nowait slow 3).queue ≡ 2 ∷ 3 ∷ []
unfolding put_nowait slow
drops_the_oldest = refl

strict : Subscriber ℕ
strict = record slow { policy = DropPolicy.disconnect }

disconnects : (put_nowait strict 3).disconnected ≡ true
unfolding put_nowait strict slow
disconnects = refl

abbrev messages : Messages ℕ
messages = (Topic.runs, 1) ∷ (Topic.logs, 2) ∷ (Topic.runs, 3) ∷ []

abbrev between : List (Call ℕ)
between = Call.published Topic.runs 1 ∷ Call.subscribed Topic.runs ∷ []

abbrev later : List (Call ℕ)
later = Call.published Topic.runs 2 ∷ Call.published Topic.voice 3 ∷ []

abbrev one_sub : PubSub ℕ
one_sub = add_subscriber empty_bus Topic.runs (new_subscriber 0 DropPolicy.disconnect)

unsubscribe-silent_example :
    let left = unsubscribe (apply_calls one_sub between) Topic.runs 0 in
    (apply_calls left later).heap 0 ≡ left.heap 0
unfolding subscribe topic_config empty_bus
unsubscribe-silent_example = unsubscribe-silent [] Topic.runs 0 one_sub between later refl

subscribe-receives_example :
    (i : ℕ) × (bus' : PubSub ℕ) × (s : Subscriber ℕ) × (subscribe empty_bus Topic.runs
      ≡ some (i, bus'))
    × ((publish_all bus' messages).heap i ≡ some s)
    × (s.queue ≡ kept Topic.runs (on_topic Topic.runs messages))
subscribe-receives_example = subscribe-receives empty_bus Topic.runs messages empty_bus-IsValid refl
