-- ===== src/Daemon/PubSub.antt =====
-- The bus of `src/agent/daemon/pubsub.py`, over any type of payloads. Subscribers are shared objects:
-- the bus holds their references in a list for each topic, and a heap holds what they refer to.
pub mod Queue
pub mod Refs
pub mod Delivery
pub mod Promise
pub mod Silent
mod Tests
use hyprland_agent.Prelude.{
  ℕ, ◌+◌, Bool, true, false, ◌&&◌, Option, none, some, List, [], ◌∷◌, ◌++◌, Dict, nat_key, lookup,
  insert, length, ltb, leb, ◌==◌, if◌then◌else◌,
}

-- `Topic` of `src/agent/ipc/protocol.py`
pub data Topic : Type 0 where
  runs hypr_events logs voice : Topic

pub data DropPolicy : Type 0 where
  drop_oldest disconnect : DropPolicy

-- `_TOPIC_CONFIG[topic]`: `none` is a `KeyError`.
unfoldable pub topic_config : Topic → Option (ℕ × DropPolicy)
topic_config Topic.runs = some (0, DropPolicy.disconnect)
topic_config Topic.hypr_events = some (256, DropPolicy.drop_oldest)
topic_config Topic.logs = some (1024, DropPolicy.drop_oldest)
topic_config Topic.voice = none

pub record Subscriber (A : Type 0) : Type 0 where
  pub capacity : ℕ
  pub policy : DropPolicy
  pub queue : List A
  pub disconnected : Bool

-- `asyncio.Queue.full()`: a queue of size 0 has no bound.
abbrev pub is_queue_full : {A : Type 0} → Subscriber A → Bool
is_queue_full s = ltb 0 s.capacity && leb s.capacity (length s.queue)

-- `queue.get_nowait()` with `QueueEmpty` suppressed.
abbrev pub drop_first : {A : Type 0} → List A → List A
drop_first [] = []
drop_first (x ∷ xs) = xs

-- The second `put_nowait` of the drop-oldest branch is in no `try`, but there is room for it.
unfoldable pub put_by : {A : Type 0} → DropPolicy → Subscriber A → A → Subscriber A
put_by DropPolicy.drop_oldest s payload =
    if is_queue_full s
    then record s { queue = drop_first s.queue ++ payload ∷ [] }
    else record s { queue = s.queue ++ payload ∷ [] }
put_by DropPolicy.disconnect s payload =
    if is_queue_full s
    then record s { disconnected = true }
    else record s { queue = s.queue ++ payload ∷ [] }

unfoldable pub put_nowait : {A : Type 0} → Subscriber A → A → Subscriber A
unfolding put_by
put_nowait s payload = if s.disconnected then s else put_by s.policy s payload

abbrev pub topic_eq : Topic → Topic → Bool
topic_eq Topic.runs Topic.runs = true
topic_eq Topic.hypr_events Topic.hypr_events = true
topic_eq Topic.logs Topic.logs = true
topic_eq Topic.voice Topic.voice = true
topic_eq _ _ = false

pub record PubSub (A : Type 0) : Type 0 where
  pub subs : Topic → List ℕ
  pub heap : ℕ → Option (Subscriber A)
  pub next : ℕ

abbrev pub update_topic : (Topic → List ℕ) → Topic → List ℕ → Topic → List ℕ
update_topic subs topic refs t = if topic_eq topic t then refs else subs t

-- `refs.remove(i)` with `ValueError` suppressed: the first occurrence goes.
unfoldable pub remove_ref : ℕ → List ℕ → List ℕ
remove_ref i [] = []
remove_ref i (j ∷ refs) = if j == i then refs else j ∷ remove_ref i refs

unfoldable pub remove_all : List ℕ → List ℕ → List ℕ
remove_all [] refs = refs
remove_all (i ∷ dead) refs = remove_all dead (remove_ref i refs)

module _ {A : Type 0} where
  unfoldable pub empty_bus : PubSub A
  empty_bus = record { subs = λ t. []; heap = λ i. none; next = 0 }

  abbrev pub update_heap :
      (ℕ → Option (Subscriber A)) → ℕ → Subscriber A → ℕ → Option (Subscriber A)
  update_heap heap i s j = if i == j then some s else heap j

  abbrev pub new_subscriber : ℕ → DropPolicy → Subscriber A
  new_subscriber capacity policy = record {
    capacity = capacity;
    policy = policy;
    queue = [];
    disconnected = false;
  }

  abbrev pub add_subscriber : PubSub A → Topic → Subscriber A → PubSub A
  add_subscriber bus topic s = record {
    subs = update_topic bus.subs topic (bus.subs topic ++ bus.next ∷ []);
    heap = update_heap bus.heap bus.next s;
    next = bus.next + 1;
  }

  -- The new reference and the bus; `none` is the `KeyError` of `Subscriber(topic)`.
  unfoldable pub subscribe : PubSub A → Topic → Option (ℕ × PubSub A)
  subscribe bus topic = elim (topic_config topic) [
    | none ↦ none
    | some (capacity, policy) ↦
        some (bus.next, add_subscriber bus topic (new_subscriber capacity policy))
  ]

  unfoldable pub unsubscribe : PubSub A → Topic → ℕ → PubSub A
  unsubscribe bus topic i = record bus {
    subs = update_topic bus.subs topic (remove_ref i (bus.subs topic));
  }

  -- One pass over the snapshot: `put_nowait` on each, and the references found disconnected.
  unfoldable pub deliver :
      (ℕ → Option (Subscriber A)) → List ℕ → A → (ℕ → Option (Subscriber A)) × List ℕ
  deliver heap [] payload = (heap, [])
  deliver heap (i ∷ refs) payload = elim (heap i) [
    | none ↦ deliver heap refs payload
    | some s ↦
        let s' = put_nowait s payload in
        let (heap', dead) = deliver (update_heap heap i s') refs payload in
        (heap', if s'.disconnected then i ∷ dead else dead)
  ]

  unfoldable pub publish : PubSub A → Topic → A → PubSub A
  publish bus topic payload =
      let (heap', dead) = deliver bus.heap (bus.subs topic) payload in
      record bus {
        heap = heap';
        subs = update_topic bus.subs topic (remove_all dead (bus.subs topic));
      }

  unfoldable pub subscriber_count : PubSub A → Topic → ℕ
  subscriber_count bus topic = length (bus.subs topic)
