-- ===== src/Daemon/PubSub/Queue.antt =====
-- What one subscriber's queue holds after a series of payloads.
use hyprland_agent.Prelude.{
  ℕ, ◌-◌, ◌≤◌, ◌<◌, ◌≡◌, refl, sym, ap, ◌∙◌, false, List, [], ◌∷◌, ◌++◌, append-nil, append_assoc,
  length, drop, last, last_short, last-last_append, length-last, length-append, arith,
}
use hyprland_agent.Daemon.PubSub.{
  DropPolicy, Subscriber, is_queue_full, drop_first, put_by, put_nowait,
}

module _ {A : Type 0} where
  abbrev pub puts : Subscriber A → List A → Subscriber A
  puts s [] = s
  puts s (p ∷ ps) = puts (put_nowait s p) ps

  -- A live subscriber that drops its oldest payloads.
  pub record DropsOldest (c : ℕ) (s : Subscriber A) : Type 0 where
    pub policy : s.policy ≡ DropPolicy.drop_oldest
    pub capacity : s.capacity ≡ c
    pub live : s.disconnected ≡ false
    pub fits : length s.queue ≤ c

  last_snoc :
      (c : ℕ) (q : List A) (p : A)
      → length q ≡ c
      → 0 < c
      → last c (q ++ p ∷ []) ≡ drop_first q ++ p ∷ []
  last_snoc c [] p e pos = absurd (omega arith)
  last_snoc c (x ∷ q) p e pos =
      ap (λ k. drop k (x ∷ q ++ p ∷ []))
        (let one : length (x ∷ q ++ p ∷ []) - c ≡ 1 =
            omega (arith, length-append (x ∷ q) (p ∷ [])) in
          one)

  pub put-DropsOldest :
      (c : ℕ) (s : Subscriber A) (p : A)
      → 0 < c
      → DropsOldest c s
      → DropsOldest c (put_nowait s p) × ((put_nowait s p).queue ≡ last c (s.queue ++ p ∷ []))
  unfolding put_nowait
  put-DropsOldest c s p pos d = ground (
    arith,
    last_snoc c s.queue p,
    last_short c (s.queue ++ p ∷ []),
    length-append s.queue (p ∷ []),
    length-last c (s.queue ++ p ∷ []),
  )

  -- A live subscriber without a bound.
  pub record Unbounded (s : Subscriber A) : Type 0 where
    pub policy : s.policy ≡ DropPolicy.disconnect
    pub capacity : s.capacity ≡ 0
    pub live : s.disconnected ≡ false

  pub put-Unbounded :
      (s : Subscriber A) (p : A)
      → Unbounded s
      → Unbounded (put_nowait s p) × ((put_nowait s p).queue ≡ s.queue ++ p ∷ [])
  unfolding put_nowait
  put-Unbounded s p u =
      rw (u.live, u.policy, put_by, is_queue_full, u.capacity)
        (record { policy = refl; capacity = refl; live = refl }, refl)

  pub puts-DropsOldest :
      (c : ℕ) (s : Subscriber A) (ps : List A)
      → 0 < c
      → DropsOldest c s
      → (puts s ps).queue ≡ last c (s.queue ++ ps)
  puts-DropsOldest c s [] pos d = sym (rw (append-nil s.queue) (last_short c s.queue d.fits))
  puts-DropsOldest c s (p ∷ ps) pos d =
      let (d', step) = put-DropsOldest c s p pos d in
      puts-DropsOldest c (put_nowait s p) ps pos d'
      ∙ ap (λ q. last c (q ++ ps)) step
      ∙ last-last_append c (s.queue ++ p ∷ []) ps
      ∙ ap (last c) (append_assoc s.queue (p ∷ []) ps)

  pub puts-Unbounded :
      (s : Subscriber A) (ps : List A) → Unbounded s → (puts s ps).queue ≡ s.queue ++ ps
  puts-Unbounded s [] u = sym (append-nil s.queue)
  puts-Unbounded s (p ∷ ps) u =
      let (u', step) = put-Unbounded s p u in
      puts-Unbounded (put_nowait s p) ps u'
      ∙ ap (λ q. q ++ ps) step
      ∙ append_assoc s.queue (p ∷ []) ps
