-- ===== src/Mesh/Blackboard/Watchers.antt =====
-- Which watchers a write calls.
use ratchet_cli.Base.{
  ℕ, zero, suc, ◌+◌, ◌<◌, ◌≡◌, refl, ap, sym, ◌∙◌, String, Bool, true, false, some, List, [], ◌∷◌,
  ◌++◌, map, arith, eqb, count_if, get_elem?, length, if◌then◌else◌,
}
use ratchet_cli.Mesh.Blackboard.{Blackboard, Entry, Call, write, watch, unwatch, live_from, clear}

-- The watcher with this index is registered.
abbrev pub live_at : List Bool → ℕ → Bool
live_at ws i = elim (get_elem? ws i) [ some true ↦ true | _ ↦ false ]

abbrev occurrences : ℕ → List ℕ → ℕ
occurrences i = count_if (λ j. eqb j i)

live_from-below : (n i : ℕ) (ws : List Bool) → i < n → occurrences i (live_from n ws) ≡ 0
unfolding live_from
live_from-below n i [] h = refl
live_from-below n i (true ∷ ws) h = ground (arith, live_from-below (n + 1) i ws)
live_from-below n i (false ∷ ws) h = live_from-below (n + 1) i ws (omega arith)

occurrences-live_from :
    (n i : ℕ) (ws : List Bool)
    → occurrences (n + i) (live_from n ws) ≡ (if live_at ws i then 1 else 0)
unfolding live_from
occurrences-live_from n i [] = refl
occurrences-live_from n zero (true ∷ ws) = ground (arith, live_from-below (n + 1) (n + 0) ws)
occurrences-live_from n zero (false ∷ ws) = live_from-below (n + 1) (n + 0) ws (omega arith)
occurrences-live_from n (suc i) (true ∷ ws) =
    let e : n + suc i ≡ (n + 1) + i = omega arith in
    ground (
      arith,
      e,
      ap (λ k. occurrences k (live_from (n + 1) ws)) e,
      occurrences-live_from (n + 1) i ws,
    )
occurrences-live_from n (suc i) (false ∷ ws) =
    let e : n + suc i ≡ (n + 1) + i = omega arith in
    ap (λ k. occurrences k (live_from (n + 1) ws)) e ∙ occurrences-live_from (n + 1) i ws

live_at-append :
    (ws : List Bool) (j : ℕ)
    → live_at (ws ++ true ∷ []) j ≡ (if eqb j (length ws) then true else live_at ws j)
live_at-append [] zero = refl
live_at-append [] (suc j) = ground arith
live_at-append (w ∷ ws) zero = ground arith
live_at-append (w ∷ ws) (suc j) = ground (arith, live_at-append ws j)

live_at-clear :
    (ws : List Bool) (i j : ℕ) → live_at (clear ws i) j ≡ (if eqb j i then false else live_at ws j)
live_at-clear [] i j = ground arith
live_at-clear (w ∷ ws) zero zero = refl
live_at-clear (w ∷ ws) zero (suc j) = ground arith
live_at-clear (w ∷ ws) (suc i) zero = ground arith
live_at-clear (w ∷ ws) (suc i) (suc j) = ground (arith, live_at-clear ws i j)

live_at-length : (ws : List Bool) → live_at ws (length ws) ≡ false
live_at-length [] = refl
live_at-length (w ∷ ws) = live_at-length ws

module _ {ℓ} {V : Type ℓ} where
  abbrev pub calls_of : ℕ → List (Call V) → ℕ
  calls_of i = count_if (λ c. eqb c.watcher i)

  calls_of-map :
      (i : ℕ) (k : String) (e : Entry V) (ws : List ℕ)
      → calls_of i (map (λ w. record { watcher = w; key = k; entry = e }) ws) ≡ occurrences i ws
  calls_of-map i k e [] = refl
  calls_of-map i k e (w ∷ ws) = ground (arith, calls_of-map i k e ws)

  -- A write calls every registered watcher exactly once, and no other.
  pub write-calls_of :
      (b : Blackboard V) (section key : String) (value : V) (author : String) (now i : ℕ)
      → let (b', e, calls) = write b section key value author now in
        calls_of i calls ≡ (if live_at b.watchers i then 1 else 0)
  unfolding write
  write-calls_of b section key value author now i =
      let e : 0 + i ≡ i = omega arith in
      calls_of-map i _ _ (live_from 0 b.watchers)
      ∙ ap (λ k. occurrences k (live_from 0 b.watchers)) (sym e)
      ∙ occurrences-live_from 0 i b.watchers

  -- The index that Watch returns was not registered, is registered then, and Unwatch of it restores
  -- which watchers are registered.
  pub unwatch-watch :
      (b : Blackboard V)
      → let (b', i) = watch b in
        (live_at b.watchers i ≡ false)
        × (live_at b'.watchers i ≡ true)
        × ((j : ℕ) → live_at (unwatch b' i).watchers j ≡ live_at b.watchers j)
  unfolding watch unwatch
  unwatch-watch b = (
    live_at-length b.watchers,
    ground (arith, live_at-append b.watchers (length b.watchers)),
    λ j. ground (
      arith,
      live_at-clear (b.watchers ++ true ∷ []) (length b.watchers) j,
      live_at-append b.watchers j,
      live_at-length b.watchers,
    ),
  )
