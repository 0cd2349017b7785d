-- ===== src/Broker/Delivery.antt =====
-- What a subscriber of a run receives (api/broker.py).
use selfevals.Prelude.{
  ℕ, ◌+◌, ◌<◌, ◌==◌, String, ◌≡◌, refl, ◌∙◌, ap, true, false, some, List, [], ◌∷◌, ◌++◌, arith,
  Bool-cases, inl, inr, map, length, count, ltb, length-append,
}
use selfevals.Broker.{
  Event, span, closed, Subscriber, Channel, Key, SpanBroker, find_channel, find_sub, change_sub,
  change_all, put_nowait, put_suppressed, offer, publish_on, publish, close_on, close_run,
}

find-change_sub :
    (id : ℕ) (change : Subscriber → Subscriber) (store : List (ℕ × Subscriber)) (s : Subscriber)
    → find_sub id store ≡ some s
    → find_sub id (change_sub id change store) ≡ some (change s)
unfolding find_sub change_sub
find-change_sub id change [] s h = cc
find-change_sub id change ((k, t) ∷ rest) s h = elim (Bool-cases (k == id)) [
  | inl e ↦ let same : t ≡ s = ground arith in rw e (rw e (ap (λ x. some (change x)) same))
  | inr e ↦
      let h' : find_sub id rest ≡ some s = rw e at h in
      rw e (rw e (find-change_sub id change rest s h'))
]

find-change_ne :
    (id k : ℕ) (change : Subscriber → Subscriber) (store : List (ℕ × Subscriber))
    → (k == id) ≡ false
    → find_sub id (change_sub k change store) ≡ find_sub id store
unfolding find_sub change_sub
find-change_ne id k change [] h = refl
find-change_ne id k change ((j, t) ∷ rest) h = elim (Bool-cases (j == k)) [
  | inl e ↦ let ne : (j == id) ≡ false = ground arith in rw e (rw ne refl)
  | inr e ↦ rw e (ground (arith, find-change_ne id k change rest h))
]

-- a subscriber that is not in the list is left alone, one that is once is changed once
find-change_all_none :
    (id : ℕ) (change : Subscriber → Subscriber) (ids : List ℕ) (store : List (ℕ × Subscriber))
    → count (λ k. k == id) ids ≡ 0
    → find_sub id (change_all change ids store) ≡ find_sub id store
unfolding change_all
find-change_all_none id change [] store h = refl
find-change_all_none id change (k ∷ ks) store h =
    let ne : (k == id) ≡ false = ground arith in
    find-change_all_none id change ks (change_sub k change store) (ground arith)
    ∙ find-change_ne id k change store ne

find-change_all :
    (id : ℕ) (change : Subscriber → Subscriber) (ids : List ℕ) (store : List (ℕ × Subscriber))
    (s : Subscriber)
    → count (λ k. k == id) ids ≡ 1
    → find_sub id store ≡ some s
    → find_sub id (change_all change ids store) ≡ some (change s)
unfolding change_all
find-change_all id change [] store s h f = absurd (omega arith)
find-change_all id change (k ∷ ks) store s h f = elim (Bool-cases (k == id)) [
  | inl e ↦
      let same : k ≡ id = ground arith in
      find-change_all_none id change ks (change_sub k change store) (ground arith)
      ∙ rw same (find-change_sub id change store s f)
  | inr e ↦
      find-change_all id change ks (change_sub k change store) s (ground arith)
        (find-change_ne id k change store e ∙ f)
]

offer-room :
    (payload : String) (s : Subscriber)
    → length s.queue < 256
    → offer payload s ≡ record s { queue = s.queue ++ (span payload ∷ []) }
unfolding offer put_nowait
offer-room payload s h = let e : ltb (length s.queue) 256 ≡ true = ground arith in rw e refl

offer-full :
    (payload : String) (s : Subscriber)
    → length s.queue ≡ 256
    → offer payload s ≡ record s { is_closed = true }
unfolding offer put_nowait put_suppressed
offer-full payload s h = let e : ltb (length s.queue) 256 ≡ false = ground arith in rw e (rw e refl)

put-room :
    (e : Event) (s : Subscriber)
    → length s.queue < 256
    → put_suppressed e s ≡ record s { queue = s.queue ++ (e ∷ []) }
unfolding put_suppressed put_nowait
put-room e s h = let f : ltb (length s.queue) 256 ≡ true = ground arith in rw f refl

put-full : (e : Event) (s : Subscriber) → length s.queue ≡ 256 → put_suppressed e s ≡ s
unfolding put_suppressed put_nowait
put-full e s h = let f : ltb (length s.queue) 256 ≡ false = ground arith in rw f refl

-- spans that arrive one after the other
abbrev pub publish_all : Key → List String → SpanBroker → SpanBroker
publish_all key [] b = b
publish_all key (p ∷ ps) b = publish_all key ps (publish key p b)

-- An open channel that lists a subscriber once.
pub record Subscribed (key : Key) (id : ℕ) (b : SpanBroker) (channel : Channel) : Type 0 where
  pub found : find_channel key b.channels ≡ some channel
  pub open_yet : channel.is_closed ≡ false
  pub once : count (λ k. k == id) channel.subscribers ≡ 1

find-publish :
    (key : Key) (id : ℕ) (payload : String) (b : SpanBroker) (channel : Channel) (s : Subscriber)
    → Subscribed key id b channel
    → find_sub id b.store ≡ some s
    → find_sub id (publish key payload b).store ≡ some (offer payload s)
unfolding publish publish_on
find-publish key id payload b channel s on h =
    rw on.found
      (rw on.open_yet (find-change_all id (offer payload) channel.subscribers b.store s on.once h))

publish-Subscribed :
    (key : Key) (id : ℕ) (payload : String) (b : SpanBroker) (channel : Channel)
    → Subscribed key id b channel
    → Subscribed key id (publish key payload b) channel
unfolding publish
publish-Subscribed key id payload b channel on = record {
  found = on.found;
  open_yet = on.open_yet;
  once = on.once;
}

find-close_run :
    (key : Key) (id : ℕ) (final : String) (b : SpanBroker) (channel : Channel) (s : Subscriber)
    → Subscribed key id b channel
    → find_sub id b.store ≡ some s
    → find_sub id (close_run key final b).store ≡ some (put_suppressed (closed final) s)
unfolding close_run close_on
find-close_run key id final b channel s on h =
    rw on.found
      (find-change_all id (put_suppressed (closed final)) channel.subscribers b.store s on.once h)

append_assoc : {A : Type 0} (xs ys zs : List A) → (xs ++ ys) ++ zs ≡ xs ++ (ys ++ zs)
append_assoc [] ys zs = refl
append_assoc (x ∷ xs) ys zs = ap (λ l. x ∷ l) (append_assoc xs ys zs)

-- A subscriber whose queue has room receives every span of its run, in the order of their arrival,
-- and then the close: from an open channel that lists it once, and with less than 256 events waiting
-- counting the spans that come, its queue ends as what it was, the spans, and the close.
pub close_run-publish_all :
    (key : Key) (id : ℕ) (payloads : List String) (final : String) (b : SpanBroker)
    (channel : Channel) (s : Subscriber)
    → Subscribed key id b channel
    → find_sub id b.store ≡ some s
    → length s.queue + length payloads < 256
    → find_sub id (close_run key final (publish_all key payloads b)).store
      ≡ some (record s { queue = s.queue ++ (map span payloads ++ (closed final ∷ [])) })
close_run-publish_all key id [] final b channel s on h room =
    find-close_run key id final b channel s on h ∙ ap some (put-room (closed final) s (omega arith))
close_run-publish_all key id (p ∷ ps) final b channel s on h room =
    close_run-publish_all key id ps final (publish key p b) channel
      (record s { queue = s.queue ++ (span p ∷ []) }) (publish-Subscribed key id p b channel on)
      (find-publish key id p b channel s on h ∙ ap some (offer-room p s (omega arith)))
      (omega (arith, length-append s.queue (span p ∷ [])))
    ∙ ap (λ q. some (record s { queue = q }))
        (append_assoc s.queue (span p ∷ []) (map span ps ++ (closed final ∷ [])))

-- A subscriber whose queue is full and that reads nothing until the run has ended gets neither a
-- disconnect nor the close: whatever spans are published and however the run ends, its queue then
-- holds the same 256 events as before.
pub close_run-full :
    (key : Key) (id : ℕ) (payloads : List String) (final : String) (b : SpanBroker)
    (channel : Channel) (s : Subscriber)
    → Subscribed key id b channel
    → find_sub id b.store ≡ some s
    → length s.queue ≡ 256
    → (t : Subscriber) × (find_sub id (close_run key final (publish_all key payloads b)).store
        ≡ some t)
      × (t.queue ≡ s.queue)
close_run-full key id [] final b channel s on h full = (
  s,
  find-close_run key id final b channel s on h ∙ ap some (put-full (closed final) s full),
  refl,
)
close_run-full key id (p ∷ ps) final b channel s on h full =
    close_run-full key id ps final (publish key p b) channel (record s { is_closed = true })
      (publish-Subscribed key id p b channel on)
      (find-publish key id p b channel s on h ∙ ap some (offer-full p s full)) full
