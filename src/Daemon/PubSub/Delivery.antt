-- ===== src/Daemon/PubSub/Delivery.antt =====
-- A publication reaches the subscribers of its topic, once each, and no others.
use hyprland_agent.Prelude.{
  ℕ, ◌≡◌, subst, ◌∙◌, true, false, some, List, [], ◌∷◌, if◌then◌else◌, arith, Bool-cases, inl, inr,
}
use hyprland_agent.Daemon.PubSub.{Topic, Subscriber, PubSub, topic_eq, put_nowait, publish, deliver}
use hyprland_agent.Daemon.PubSub.Queue.{puts}
use hyprland_agent.Daemon.PubSub.Refs.{
  mem, Distinct, mem-remove_all, mem-remove_all_absent, remove_all-Distinct, deliver_absent,
  deliver_member,
}

pub topic_eq_refl : (t : Topic) → topic_eq t t ≡ true
topic_eq_refl t = ground arith

pub eq_of-topic_eq : (t u : Topic) → topic_eq t u ≡ true → t ≡ u
eq_of-topic_eq t u h = ground arith

pub topic_eq_sym : (t u : Topic) → topic_eq t u ≡ topic_eq u t
topic_eq_sym t u = ground arith

-- Publications, oldest first.
abbrev pub Messages : Type 0 → Type 0
Messages A = List (Topic × A)

module _ {A : Type 0} where
  abbrev pub publish_all : PubSub A → Messages A → PubSub A
  publish_all bus [] = bus
  publish_all bus ((t, p) ∷ ms) = publish_all (publish bus t p) ms

  -- The payloads that were published on a topic.
  abbrev pub on_topic : Topic → Messages A → List A
  on_topic topic [] = []
  on_topic topic ((t, p) ∷ ms) =
      if topic_eq topic t then p ∷ on_topic topic ms else on_topic topic ms

  -- The reference `i` of a topic, and the subscriber behind it.
  pub record Attached (bus : PubSub A) (topic : Topic) (i : ℕ) (s : Subscriber A) : Type 0 where
    pub member : mem i (bus.subs topic) ≡ true
    pub distinct : Distinct (bus.subs topic)
    pub elsewhere : (t : Topic) → topic_eq topic t ≡ false → mem i (bus.subs t) ≡ false
    pub held : bus.heap i ≡ some s

  publish-Attached :
      (bus : PubSub A) (topic : Topic) (i : ℕ) (s : Subscriber A) (p : A)
      → Attached bus topic i s
      → (put_nowait s p).disconnected ≡ false
      → Attached (publish bus topic p) topic i (put_nowait s p)
  unfolding publish
  publish-Attached bus topic i s p a live =
      let refs = bus.subs topic in
      let dead = (deliver bus.heap refs p).1 in
      let (written, alive) = deliver_member bus.heap refs p i s a.distinct a.member a.held live in
      record {
        member = rw (topic_eq_refl topic) (mem-remove_all i dead refs alive ∙ a.member);
        distinct = rw (topic_eq_refl topic) (remove_all-Distinct dead refs a.distinct);
        elsewhere = λ t ne. rw ne (a.elsewhere t ne);
        held = written;
      }

  publish_other-Attached :
      (bus : PubSub A) (topic t : Topic) (i : ℕ) (s : Subscriber A) (p : A)
      → Attached bus topic i s
      → topic_eq topic t ≡ false
      → Attached (publish bus t p) topic i s
  unfolding publish
  publish_other-Attached bus topic t i s p a ne =
      let refs = bus.subs t in
      let dead = (deliver bus.heap refs p).1 in
      let out = a.elsewhere t ne in
      let (kept, alive) = deliver_absent bus.heap refs p i out in
      let ne' : topic_eq t topic ≡ false = topic_eq_sym t topic ∙ ne in
      record {
        member = rw ne' a.member;
        distinct = rw ne' a.distinct;
        elsewhere = λ u far. elim (Bool-cases (topic_eq t u)) [
          | inl same ↦ rw same (mem-remove_all_absent i dead refs out)
          | inr apart ↦ rw apart (a.elsewhere u far)
        ];
        held = kept ∙ a.held;
      }

  module _ (P : Subscriber A → Type 0) (topic : Topic) (i : ℕ)
      (keeps : (s : Subscriber A) (p : A)
        → P s
        → P (put_nowait s p) × ((put_nowait s p).disconnected ≡ false)) where
    pub publish_all-Attached :
        (ms : Messages A) (bus : PubSub A) (s : Subscriber A)
        → Attached bus topic i s
        → P s
        → Attached (publish_all bus ms) topic i (puts s (on_topic topic ms))
    publish_all-Attached [] bus s a ok = a
    publish_all-Attached ((t, p) ∷ ms) bus s a ok = elim (Bool-cases (topic_eq topic t)) [
      | inl same ↦
          let (ok', live) = keeps s p ok in
          rw same (
            publish_all-Attached ms (publish bus t p) (put_nowait s p)
              (subst (λ u. Attached (publish bus u p) topic i (put_nowait s p))
                (eq_of-topic_eq topic t same) (publish-Attached bus topic i s p a live))
              ok')
      | inr ne ↦ rw ne (
          publish_all-Attached ms (publish bus t p) s
            (publish_other-Attached bus topic t i s p a ne) ok)
    ]
