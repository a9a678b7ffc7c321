-- ===== src/Daemon/PubSub/Silent.antt =====
-- What `unsubscribe` of `src/agent/daemon/pubsub.py` promises: nothing is delivered after it.
use hyprland_agent.Prelude.{
  ℕ, ◌<◌, ◌≡◌, refl, subst, ◌∙◌, Bool, false, Option, none, some, List, [], ◌∷◌, ◌==◌, ==_iff,
  arith, Bool-cases, inl, inr, Option-cases,
}
use hyprland_agent.Daemon.PubSub.{
  Topic, PubSub, Subscriber, topic_config, topic_eq, empty_bus, subscribe, unsubscribe, publish,
  deliver, remove_ref, remove_all, new_subscriber, add_subscriber, update_topic,
}
use hyprland_agent.Daemon.PubSub.Refs.{
  mem, mem-remove_ref_self, mem-remove_ref_absent, mem-remove_all_absent, mem-snoc_ne,
  deliver_absent,
}
use hyprland_agent.Daemon.PubSub.Delivery.{eq_of-topic_eq}
use hyprland_agent.Daemon.PubSub.Promise.{
  IsValid, empty_bus-IsValid, subscribe-IsValid, unsubscribe-IsValid, publish-IsValid,
}

-- A call on the bus; a subscription that raises leaves it as it was.
pub data Call (A : Type 0) : Type 0 where
  subscribed : Topic → Call A
  unsubscribed : Topic → ℕ → Call A
  published : Topic → A → Call A

abbrev nowhere : Topic → Bool
nowhere t = false

module _ {A : Type 0} where
  abbrev pub bus_or : PubSub A → Option (ℕ × PubSub A) → PubSub A
  bus_or bus none = bus
  bus_or bus (some (i, bus')) = bus'

  abbrev pub apply_call : PubSub A → Call A → PubSub A
  apply_call bus (Call.subscribed topic) = bus_or bus (subscribe bus topic)
  apply_call bus (Call.unsubscribed topic i) = unsubscribe bus topic i
  apply_call bus (Call.published topic p) = publish bus topic p

  abbrev pub apply_calls : PubSub A → List (Call A) → PubSub A
  apply_calls bus [] = bus
  apply_calls bus (c ∷ cs) = apply_calls (apply_call bus c) cs

  apply_call-IsValid : (bus : PubSub A) (c : Call A) → IsValid bus → IsValid (apply_call bus c)
  apply_call-IsValid bus (Call.subscribed topic) v = elim (Option-cases (subscribe bus topic)) [
    | inl unknown ↦ rw unknown v
    | inr ((j, bus'), made) ↦ rw made (subscribe-IsValid bus bus' topic j v made)
  ]
  apply_call-IsValid bus (Call.unsubscribed topic i) v = unsubscribe-IsValid bus topic i v
  apply_call-IsValid bus (Call.published topic p) v = publish-IsValid bus topic p v

  apply_calls-IsValid :
      (bus : PubSub A) (cs : List (Call A)) → IsValid bus → IsValid (apply_calls bus cs)
  apply_calls-IsValid bus [] v = v
  apply_calls-IsValid bus (c ∷ cs) v =
      apply_calls-IsValid (apply_call bus c) cs (apply_call-IsValid bus c v)

  -- A reference that was given out stands in the list of no topic, save for those that `free` names.
  record IsOutside (i : ℕ) (free : Topic → Bool) (bus : PubSub A) : Type 0 where
    old : i < bus.next
    outside : (t : Topic) → free t ≡ false → mem i (bus.subs t) ≡ false

  add-IsOutside :
      (i : ℕ) (free : Topic → Bool) (bus : PubSub A) (topic : Topic) (s : Subscriber A)
      → IsOutside i free bus
      → IsOutside i free (add_subscriber bus topic s)
        × ((add_subscriber bus topic s).heap i ≡ bus.heap i)
  add-IsOutside i free bus topic s o =
      let ne : (bus.next == i) ≡ false = ground (arith, o.old, ==_iff bus.next i) in
      (
        record {
          old = omega (arith, o.old);
          outside = λ t f. elim (Bool-cases (topic_eq topic t)) [
            | inl same ↦ rw same (
                mem-snoc_ne i bus.next (bus.subs topic) ne
                ∙ ground (arith, o.outside topic, o.outside t f))
            | inr apart ↦ rw apart (o.outside t f)
          ];
        },
        rw ne refl,
      )

  shrink-IsOutside :
      (i : ℕ) (free : Topic → Bool) (bus : PubSub A) (topic : Topic) (refs : List ℕ)
      (heap : ℕ → Option (Subscriber A))
      → (mem i (bus.subs topic) ≡ false → mem i refs ≡ false)
      → IsOutside i free bus
      → IsOutside i free (record bus { subs = update_topic bus.subs topic refs; heap = heap })
  shrink-IsOutside i free bus topic refs heap sub o = record {
    old = o.old;
    outside = λ t f. elim (Bool-cases (topic_eq topic t)) [
      | inl same ↦ rw same (sub (rw (eq_of-topic_eq topic t same) (o.outside t f)))
      | inr apart ↦ rw apart (o.outside t f)
    ];
  }

  subscribed-IsOutside :
      (i : ℕ) (free : Topic → Bool) (bus : PubSub A) (topic : Topic)
      → IsOutside i free bus
      → IsOutside i free (bus_or bus (subscribe bus topic))
        × ((bus_or bus (subscribe bus topic)).heap i ≡ bus.heap i)
  unfolding subscribe topic_config
  subscribed-IsOutside i free bus Topic.runs o = add-IsOutside i free bus Topic.runs _ o
  subscribed-IsOutside i free bus Topic.hypr_events o =
      add-IsOutside i free bus Topic.hypr_events _ o
  subscribed-IsOutside i free bus Topic.logs o = add-IsOutside i free bus Topic.logs _ o
  subscribed-IsOutside i free bus Topic.voice o = (o, refl)

  apply_call-IsOutside :
      (i : ℕ) (free : Topic → Bool) (bus : PubSub A) (c : Call A)
      → IsOutside i free bus
      → IsOutside i free (apply_call bus c)
  unfolding unsubscribe publish
  apply_call-IsOutside i free bus (Call.subscribed topic) o =
      (subscribed-IsOutside i free bus topic o).0
  apply_call-IsOutside i free bus (Call.unsubscribed topic j) o =
      shrink-IsOutside i free bus topic (remove_ref j (bus.subs topic)) bus.heap
        (mem-remove_ref_absent i j (bus.subs topic)) o
  apply_call-IsOutside i free bus (Call.published topic p) o =
      let d = deliver bus.heap (bus.subs topic) p in
      shrink-IsOutside i free bus topic (remove_all d.1 (bus.subs topic)) d.0
        (mem-remove_all_absent i d.1 (bus.subs topic)) o

  apply_calls-IsOutside :
      (i : ℕ) (free : Topic → Bool) (bus : PubSub A) (cs : List (Call A))
      → IsOutside i free bus
      → IsOutside i free (apply_calls bus cs)
  apply_calls-IsOutside i free bus [] o = o
  apply_calls-IsOutside i free bus (c ∷ cs) o =
      apply_calls-IsOutside i free (apply_call bus c) cs (apply_call-IsOutside i free bus c o)

  apply_call-heap :
      (i : ℕ) (bus : PubSub A) (c : Call A)
      → IsOutside i nowhere bus
      → (apply_call bus c).heap i ≡ bus.heap i
  unfolding unsubscribe publish
  apply_call-heap i bus (Call.subscribed topic) o = (subscribed-IsOutside i nowhere bus topic o).1
  apply_call-heap i bus (Call.unsubscribed topic j) o = refl
  apply_call-heap i bus (Call.published topic p) o =
      (deliver_absent bus.heap (bus.subs topic) p i (o.outside topic refl)).0

  apply_calls-heap :
      (i : ℕ) (bus : PubSub A) (cs : List (Call A))
      → IsOutside i nowhere bus
      → (apply_calls bus cs).heap i ≡ bus.heap i
  apply_calls-heap i bus [] o = refl
  apply_calls-heap i bus (c ∷ cs) o =
      apply_calls-heap i (apply_call bus c) cs (apply_call-IsOutside i nowhere bus c o)
      ∙ apply_call-heap i bus c o

  subscribe-IsOutside :
      (bus bus' : PubSub A) (topic : Topic) (i : ℕ)
      → IsValid bus
      → subscribe bus topic ≡ some (i, bus')
      → IsOutside i (topic_eq topic) bus'
  unfolding subscribe
  subscribe-IsOutside bus bus' topic i v e = elim (Option-cases (topic_config topic)) [
    | inl unknown ↦ absurd (ground arith)
    | inr ((c, policy), known) ↦
        let made : add_subscriber bus topic (new_subscriber c policy) ≡ bus' = ground arith in
        let new : bus.next ≡ i = ground arith in
        subst (λ k. IsOutside k (topic_eq topic) bus') new
          (subst (IsOutside bus.next (topic_eq topic)) made (record {
            old = omega arith;
            outside = λ t apart. rw apart (v.fresh t bus.next (omega arith));
          }))
  ]

  unsubscribe-IsOutside :
      (i : ℕ) (bus : PubSub A) (topic : Topic)
      → IsValid bus
      → IsOutside i (topic_eq topic) bus
      → IsOutside i nowhere (unsubscribe bus topic i)
  unfolding unsubscribe
  unsubscribe-IsOutside i bus topic v o = record {
    old = o.old;
    outside = λ t f. elim (Bool-cases (topic_eq topic t)) [
      | inl same ↦ rw same (mem-remove_ref_self i (bus.subs topic) (v.distinct topic))
      | inr apart ↦ rw apart (o.outside t apart)
    ];
  }

  -- On a bus that began empty, whatever was called on it: when a subscription to a topic succeeds,
  -- any calls follow, and it is then given up on that topic, no later call, on whatever topic,
  -- changes the subscriber: nothing is put in its queue, and it is not disconnected.
  pub unsubscribe-silent :
      (before : List (Call A)) (topic : Topic) (i : ℕ) (bus : PubSub A)
      (between later : List (Call A))
      → subscribe (apply_calls empty_bus before) topic ≡ some (i, bus)
      → let left = unsubscribe (apply_calls bus between) topic i in
        (apply_calls left later).heap i ≡ left.heap i
  unsubscribe-silent before topic i bus between later e =
      let valid = apply_calls-IsValid empty_bus before empty_bus-IsValid in
      let made = subscribe-IsValid (apply_calls empty_bus before) bus topic i valid e in
      apply_calls-heap i (unsubscribe (apply_calls bus between) topic i) later (
        unsubscribe-IsOutside i (apply_calls bus between) topic
          (apply_calls-IsValid bus between made)
          (apply_calls-IsOutside i (topic_eq topic) bus between
            (subscribe-IsOutside (apply_calls empty_bus before) bus topic i valid e)))
