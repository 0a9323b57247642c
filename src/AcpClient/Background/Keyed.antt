-- ===== src/AcpClient/Background/Keyed.antt =====
-- The lists of internal/acpclient/background.go, which hold one element for each session id: the
-- searches, the writes and the sort that BackgroundStore repeats for policies and transitions.
use Prim.Native.Char.{code}
use Prim.Native.String.{String, [], ◌∷◌}
use ratchet_cli.Base.{
  Bool, true, false, Option, none, some, List, [], ◌∷◌, ◌++◌, ◌≡◌, refl, inl, inr, arith, ◌==◌,
  eq_iff, ltb, eqb, if◌then◌else◌, Bool-cases, Option-cases,
}

-- `strings.Compare(a, b) <= 0`; the bytes of UTF-8 have the order of the code points.
unfoldable pub precedes : String → String → Bool
precedes [] b = true
precedes (c ∷ a) [] = false
precedes (c ∷ a) (d ∷ b) =
    let rest = precedes a b in if eqb (code c) (code d) then rest else ltb (code c) (code d)

pub precedes_refl : (a : String) → precedes a a ≡ true
unfolding precedes
precedes_refl [] = refl
precedes_refl (c ∷ a) = ground (arith, precedes_refl a)

module _ {ℓ} {A : Type ℓ} (key : A → String) where
  -- `for _, x := range xs { if key(x) == id { ... } }`
  unfoldable pub find_by : String → List A → Option A
  find_by id [] = none
  find_by id (x ∷ xs) = if key x == id then some x else find_by id xs

  -- `for i := range xs { if key(xs[i]) == key(new) { xs[i] = new; ... } }`; `none` where none is
  unfoldable pub replace_by : A → List A → Option (List A)
  replace_by new [] = none
  replace_by new (x ∷ xs) =
      let rest = replace_by new xs in
      if key x == key new
      then some (new ∷ xs)
      else elim rest [ none ↦ none | some xs' ↦ some (x ∷ xs') ]

  unfoldable pub put_sorted : A → List A → List A
  unfolding precedes
  put_sorted new [] = new ∷ []
  put_sorted new (x ∷ xs) =
      let rest = put_sorted new xs in if precedes (key new) (key x) then new ∷ x ∷ xs else x ∷ rest

  -- `slices.SortFunc` by the key. Elements of one key keep their order.
  unfoldable pub sort_by : List A → List A
  unfolding put_sorted
  sort_by [] = []
  sort_by (x ∷ xs) = put_sorted x (sort_by xs)

  -- the loop that keeps the elements of other keys
  unfoldable pub without : String → List A → List A
  without id [] = []
  without id (x ∷ xs) = let rest = without id xs in if key x == id then rest else x ∷ rest

  pub find_by-replace_by :
      (new : A) (xs ys : List A) (id : String)
      → replace_by new xs ≡ some ys
      → find_by id ys ≡ (if key new == id then some new else find_by id xs)
  unfolding find_by replace_by
  find_by-replace_by new [] ys id e = absurd (cc e)
  find_by-replace_by new (x ∷ xs) ys id e = elim (Bool-cases (key x == key new)) [
    | inl q ↦
        ground
          (arith, rw q at e, q, eq_iff (key x) (key new), eq_iff (key x) id, eq_iff (key new) id)
    | inr q ↦ elim (Option-cases (replace_by new xs)) [
      | inl n ↦ absurd (cc (rw (q, n) at e))
      | inr (zs, n) ↦
          let same : Option.some (x ∷ zs) ≡ some ys = rw (q, n) at e in
          ground (
            arith,
            same,
            find_by-replace_by new xs zs id n,
            q,
            eq_iff (key x) (key new),
            eq_iff (key x) id,
            eq_iff (key new) id,
          )
    ]
  ]

  pub find_by-append :
      (new : A) (xs : List A) (id : String)
      → replace_by new xs ≡ none
      → find_by id (xs ++ new ∷ []) ≡ (if key new == id then some new else find_by id xs)
  unfolding find_by replace_by
  find_by-append new [] id e = refl
  find_by-append new (x ∷ xs) id e = elim (Bool-cases (key x == key new)) [
    | inl q ↦ absurd (cc (rw q at e))
    | inr q ↦ elim (Option-cases (replace_by new xs)) [
      | inr (zs, n) ↦ absurd (cc (rw (q, n) at e))
      | inl n ↦ ground (
        arith,
        find_by-append new xs id n,
        q,
        eq_iff (key x) (key new),
        eq_iff (key x) id,
        eq_iff (key new) id,
      )
    ]
  ]

  find_by-put_sorted :
      (new : A) (xs : List A) (id : String)
      → find_by id (put_sorted new xs) ≡ (if key new == id then some new else find_by id xs)
  unfolding find_by put_sorted
  find_by-put_sorted new [] id = refl
  find_by-put_sorted new (x ∷ xs) id = elim (Bool-cases (precedes (key new) (key x))) [
    | inl q ↦ rw (q, put_sorted) refl
    | inr q ↦ ground (
      arith,
      find_by-put_sorted new xs id,
      q,
      precedes_refl (key x),
      eq_iff (key x) id,
      eq_iff (key new) id,
    )
  ]

  pub find_by-sort_by : (xs : List A) (id : String) → find_by id (sort_by xs) ≡ find_by id xs
  unfolding find_by sort_by
  find_by-sort_by [] id = refl
  find_by-sort_by (x ∷ xs) id =
      ground (arith, find_by-put_sorted x (sort_by xs) id, find_by-sort_by xs id)

  pub find_by-without :
      (gone id : String) (xs : List A)
      → find_by id (without gone xs) ≡ (if gone == id then none else find_by id xs)
  unfolding find_by without
  find_by-without gone id [] = ground arith
  find_by-without gone id (x ∷ xs) =
      ground
        (arith, find_by-without gone id xs, eq_iff gone id, eq_iff (key x) gone, eq_iff (key x) id)
