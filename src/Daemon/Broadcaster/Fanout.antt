-- ===== src/Daemon/Broadcaster/Fanout.antt =====
-- Who receives an event.
use ratchet_cli.Base.{
  ◌≡◌, sym, ap, ◌∙◌, inl, inr, String, ◌&&◌, Option, none, some, List, [], ◌∷◌, arith,
  if◌then◌else◌, ◌==◌, eq_iff, Option-cases, Bool-cases,
}
use ratchet_cli.Base.Dict.{
  Dict, lookup, insert, remove, map_entries, apply_at, lookup-insert, lookup-remove,
  lookup-map_entries,
}
use ratchet_cli.Daemon.Broadcaster.{
  SessionBroadcaster, subscribe, store_or_drop, unsubscribe, push, publish,
}

module _ {ℓ} {E : Type ℓ} where
  abbrev in_session : String → Option (Dict (List E)) → Option (List E)
  in_session sub none = none
  in_session sub (some subs) = lookup sub subs

  -- the channel of a subscription
  abbrev pub channel : String → String → SessionBroadcaster E → Option (List E)
  channel session sub b = in_session sub (lookup session b)

  channel-publish :
      (session : String) (event : E) (b : SessionBroadcaster E) (s sub : String)
      → channel s sub (publish session event b)
        ≡ (if s == session then apply_at (push event) (channel s sub b) else channel s sub b)
  unfolding publish
  channel-publish session event b s sub = elim (Option-cases (lookup s b)) [
    | inl e ↦ ground (
      arith,
      e,
      lookup-map_entries
          (λ k subs. if k == session then map_entries (λ j ch. push event ch) subs else subs) s b,
    )
    | inr (subs, e) ↦ ground (
      arith,
      e,
      lookup-map_entries (λ k m. if k == session then map_entries (λ j ch. push event ch) m else m)
          s b,
      lookup-map_entries (λ j ch. push event ch) sub subs,
    )
  ]

  channel-subscribe :
      (session sub : String) (b : SessionBroadcaster E) (s k : String)
      → channel s k (subscribe session sub b)
        ≡ (if (session == s) && (sub == k) then some [] else channel s k b)
  unfolding subscribe
  channel-subscribe session sub b s k = elim (Option-cases (lookup session b)) [
    | inl e ↦ ground (
      arith,
      e,
      eq_iff session s,
      lookup-insert session s (insert sub [] []) b,
      lookup-insert {V = List E} sub k [] [],
    )
    | inr (subs, e) ↦ ground (
      arith,
      e,
      eq_iff session s,
      lookup-insert session s (insert sub [] subs) b,
      lookup-insert sub k [] subs,
    )
  ]

  channel-store_or_drop :
      (session : String) (subs : Dict (List E)) (b : SessionBroadcaster E) (s k : String)
      → channel s k (store_or_drop session subs b)
        ≡ (if session == s then lookup k subs else channel s k b)
  unfolding store_or_drop lookup
  channel-store_or_drop session [] b s k = ground (arith, lookup-remove session s b)
  channel-store_or_drop session (x ∷ xs) b s k = ground (arith, lookup-insert session s (x ∷ xs) b)

  channel-unsubscribe :
      (session sub : String) (b : SessionBroadcaster E) (s k : String)
      → channel s k (unsubscribe session sub b)
        ≡ (if (session == s) && (sub == k) then none else channel s k b)
  unfolding unsubscribe
  channel-unsubscribe session sub b s k = elim (Option-cases (lookup session b)) [
    | inl e ↦ ground (arith, e, eq_iff session s)
    | inr (subs, e) ↦ ground (
      arith,
      e,
      eq_iff session s,
      lookup-remove sub k subs,
      channel-store_or_drop session (remove sub subs) b s k,
    )
  ]

  -- A published event is offered to every channel of its session, and the channels of the other
  -- sessions are as they were; a subscription adds an empty channel and changes no other.
  pub fanout :
      (session sub : String) (event : E) (b : SessionBroadcaster E) (s k : String)
      → (channel s k (publish session event b)
          ≡ (if s == session then apply_at (push event) (channel s k b) else channel s k b))
        × (channel s k (subscribe session sub b)
            ≡ (if (session == s) && (sub == k) then some [] else channel s k b))
  fanout session sub event b s k =
      (channel-publish session event b s k, channel-subscribe session sub b s k)

  -- The removal of a new subscription, under an id that its session did not have, restores every
  -- channel.
  pub unsubscribe-subscribe :
      (session sub : String) (b : SessionBroadcaster E) (s k : String)
      → channel session sub b ≡ none
      → channel s k (unsubscribe session sub (subscribe session sub b)) ≡ channel s k b
  unsubscribe-subscribe session sub b s k new = elim (Bool-cases ((session == s) && (sub == k))) [
    | inl e ↦
        let same_session : session ≡ s = ground (arith, e, eq_iff session s) in
        let same_sub : sub ≡ k = ground (arith, e, eq_iff sub k) in
        let gone : channel s k b ≡ none =
          sym (ap (λ x. channel x sub b) same_session ∙ ap (λ x. channel s x b) same_sub) ∙ new in
        ground (arith, e, gone, channel-unsubscribe session sub (subscribe session sub b) s k)
    | inr e ↦ ground (
      arith,
      e,
      channel-unsubscribe session sub (subscribe session sub b) s k,
      channel-subscribe session sub b s k,
    )
  ]
