-- ===== src/Daemon/PubSub/Promise.antt =====
-- What the bus promises: from a subscription on, what a subscriber finds in its queue.
use hyprland_agent.Prelude.{
  ℕ, ◌≤◌, ◌<◌, ◌≡◌, refl, subst, ◌∙◌, false, Option, some, List, [], arith, Bool-cases, inl, inr,
  Option-cases, last,
}
use hyprland_agent.Daemon.PubSub.{
  Topic, DropPolicy, Subscriber, PubSub, topic_config, topic_eq, empty_bus, subscribe, unsubscribe,
  publish, remove_all, remove_ref, deliver, update_topic, new_subscriber, add_subscriber,
}
use hyprland_agent.Daemon.PubSub.Queue.{
  puts, DropsOldest, Unbounded, put-DropsOldest, put-Unbounded, puts-DropsOldest, puts-Unbounded,
}
use hyprland_agent.Daemon.PubSub.Refs.{
  mem, Distinct, mem-remove_all_absent, remove_all-Distinct, remove_ref-Distinct,
  mem-remove_ref_absent, mem-snoc, mem-snoc_ne, snoc-Distinct,
}
use hyprland_agent.Daemon.PubSub.Delivery.{
  Attached, Messages, publish_all, on_topic, topic_eq_refl, publish_all-Attached,
}

module _ {A : Type 0} where
  -- No reference stands twice in the list of a topic, and none is yet to be given out.
  pub record IsValid (bus : PubSub A) : Type 0 where
    pub distinct : (t : Topic) → Distinct (bus.subs t)
    pub fresh : (t : Topic) (i : ℕ) → bus.next ≤ i → mem i (bus.subs t) ≡ false

  pub empty_bus-IsValid : IsValid (empty_bus {A = A})
  unfolding empty_bus
  empty_bus-IsValid = record { distinct = λ t. tt; fresh = λ t i h. refl }

  add_subscriber-IsValid :
      (bus : PubSub A) (topic : Topic) (s : Subscriber A)
      → IsValid bus
      → IsValid (add_subscriber bus topic s)
  add_subscriber-IsValid bus topic s v = record {
    distinct = λ t. elim (Bool-cases (topic_eq topic t)) [
      | inl same ↦ rw same (
          snoc-Distinct bus.next (bus.subs topic) (v.distinct topic)
            (v.fresh topic bus.next (omega arith)))
      | inr apart ↦ rw apart (v.distinct t)
    ];
    fresh = λ t i h. elim (Bool-cases (topic_eq topic t)) [
      | inl same ↦
          rw same
            (mem-snoc_ne i bus.next (bus.subs topic) (ground arith) ∙ v.fresh topic i (omega arith))
      | inr apart ↦ rw apart (v.fresh t i (omega arith))
    ];
  }

  shrink-IsValid :
      (bus : PubSub A) (topic : Topic) (refs : List ℕ) (heap : ℕ → Option (Subscriber A))
      → IsValid bus
      → Distinct refs
      → ((i : ℕ) → mem i (bus.subs topic) ≡ false → mem i refs ≡ false)
      → IsValid (record bus { subs = update_topic bus.subs topic refs; heap = heap })
  shrink-IsValid bus topic refs heap v d sub = record {
    distinct = λ t. elim (Bool-cases (topic_eq topic t)) [
      | inl same ↦ rw same d
      | inr apart ↦ rw apart (v.distinct t)
    ];
    fresh = λ t i h. elim (Bool-cases (topic_eq topic t)) [
      | inl same ↦ rw same (sub i (v.fresh topic i h))
      | inr apart ↦ rw apart (v.fresh t i h)
    ];
  }

  pub subscribe-IsValid :
      (bus bus' : PubSub A) (topic : Topic) (j : ℕ)
      → IsValid bus
      → subscribe bus topic ≡ some (j, bus')
      → IsValid bus'
  unfolding subscribe
  subscribe-IsValid bus bus' topic j v e = elim (Option-cases (topic_config topic)) [
    | inl unknown ↦ absurd (ground arith)
    | inr ((c, policy), known) ↦
        let made : add_subscriber bus topic (new_subscriber c policy) ≡ bus' = ground arith in
        subst IsValid made (add_subscriber-IsValid bus topic (new_subscriber c policy) v)
  ]

  pub unsubscribe-IsValid :
      (bus : PubSub A) (topic : Topic) (i : ℕ) → IsValid bus → IsValid (unsubscribe bus topic i)
  unfolding unsubscribe
  unsubscribe-IsValid bus topic i v =
      let refs = bus.subs topic in
      shrink-IsValid bus topic (remove_ref i refs) bus.heap v
        (remove_ref-Distinct i refs (v.distinct topic))
        (λ k out. mem-remove_ref_absent k i refs out)

  pub publish-IsValid :
      (bus : PubSub A) (topic : Topic) (p : A) → IsValid bus → IsValid (publish bus topic p)
  unfolding publish
  publish-IsValid bus topic p v =
      let refs = bus.subs topic in
      let d = deliver bus.heap refs p in
      shrink-IsValid bus topic (remove_all d.1 refs) d.0 v
        (remove_all-Distinct d.1 refs (v.distinct topic))
        (λ k out. mem-remove_all_absent k d.1 refs out)

  subscribe-Attached :
      (bus : PubSub A) (topic : Topic) (s : Subscriber A)
      → IsValid bus
      → Attached (add_subscriber bus topic s) topic bus.next s
  subscribe-Attached bus topic s v = record {
    member = rw (topic_eq_refl topic) (mem-snoc bus.next (bus.subs topic));
    distinct = rw (topic_eq_refl topic) (
        snoc-Distinct bus.next (bus.subs topic) (v.distinct topic)
          (v.fresh topic bus.next (omega arith)));
    elsewhere = λ t apart. rw apart (v.fresh t bus.next (omega arith));
    held = ground arith;
  }

  -- What a subscriber of a topic finds in its queue if it takes nothing out.
  abbrev pub kept : Topic → List A → List A
  kept Topic.runs ps = ps
  kept Topic.hypr_events ps = last 256 ps
  kept Topic.logs ps = last 1024 ps
  kept Topic.voice ps = []

  drops_oldest-receives :
      (bus : PubSub A) (topic : Topic) (c : ℕ) (ms : Messages A)
      → IsValid bus
      → 0 < c
      → let s : Subscriber A = new_subscriber c DropPolicy.drop_oldest in
        let s' = puts s (on_topic topic ms) in
        ((publish_all (add_subscriber bus topic s) ms).heap bus.next ≡ some s')
        × (s'.queue ≡ last c (on_topic topic ms))
  drops_oldest-receives bus topic c ms v pos =
      let s : Subscriber A = new_subscriber c DropPolicy.drop_oldest in
      let d : DropsOldest c s = record {
        policy = refl;
        capacity = refl;
        live = refl;
        fits = omega arith;
      } in
      (
        (publish_all-Attached (DropsOldest c) topic bus.next
            (λ s p ok. ((put-DropsOldest c s p pos ok).0, (put-DropsOldest c s p pos ok).0.live)) ms
            (add_subscriber bus topic s) s (subscribe-Attached bus topic s v) d).held,
        puts-DropsOldest c s (on_topic topic ms) pos d,
      )

  -- On a valid bus a subscription to any topic but `voice` succeeds, and after any series of
  -- publications on all topics the new subscriber's queue holds, in order, the payloads of its
  -- own topic: all of them on `runs`, the last 256 on `hypr_events`, the last 1024 on `logs`.
  pub subscribe-receives :
      (bus : PubSub A) (topic : Topic) (ms : Messages A)
      → IsValid bus
      → topic_eq topic Topic.voice ≡ false
      → (i : ℕ) × (bus' : PubSub A) × (s : Subscriber A) × (subscribe bus topic ≡ some (i, bus'))
        × ((publish_all bus' ms).heap i ≡ some s)
        × (s.queue ≡ kept topic (on_topic topic ms))
  unfolding subscribe topic_config
  subscribe-receives bus Topic.runs ms v h =
      let s : Subscriber A = new_subscriber 0 DropPolicy.disconnect in
      let u : Unbounded s = record { policy = refl; capacity = refl; live = refl } in
      (
        bus.next,
        add_subscriber bus Topic.runs s,
        puts s (on_topic Topic.runs ms),
        refl,
        (publish_all-Attached Unbounded Topic.runs bus.next
            (λ s p ok. ((put-Unbounded s p ok).0, (put-Unbounded s p ok).0.live)) ms
            (add_subscriber bus Topic.runs s) s (subscribe-Attached bus Topic.runs s v) u).held,
        puts-Unbounded s (on_topic Topic.runs ms) u,
      )
  subscribe-receives bus Topic.hypr_events ms v h =
      let s : Subscriber A = new_subscriber 256 DropPolicy.drop_oldest in
      let (held, queue) = drops_oldest-receives bus Topic.hypr_events 256 ms v (omega arith) in
      (
        bus.next,
        add_subscriber bus Topic.hypr_events s,
        puts s (on_topic Topic.hypr_events ms),
        refl,
        held,
        queue,
      )
  subscribe-receives bus Topic.logs ms v h =
      let s : Subscriber A = new_subscriber 1024 DropPolicy.drop_oldest in
      let (held, queue) = drops_oldest-receives bus Topic.logs 1024 ms v (omega arith) in
      (
        bus.next,
        add_subscriber bus Topic.logs s,
        puts s (on_topic Topic.logs ms),
        refl,
        held,
        queue,
      )
  subscribe-receives bus Topic.voice ms v h = cc
