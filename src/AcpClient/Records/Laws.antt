-- ===== src/AcpClient/Records/Laws.antt =====
-- Laws of the searches and writes: what a lookup returns after a write, an append, a reordering.
use mathlib.Core.Path.{subst₂}
use mathlib.Core.Logic.{∥∥₁_elim}
use mathlib.Core.List.{Perm, Permᴰ}
use ratchet_cli.Base.{
  String, ◌≡◌, refl, false, none, some, [], ◌∷◌, ◌++◌, arith, ◌==◌, ◌∙◌, String-set, Bool-cases,
  inl, inr, eq_iff, eq_refl, if◌then◌else◌,
}
use ratchet_cli.AcpClient.Types.{SessionRecord}
use ratchet_cli.AcpClient.Records.{Sessions, find_session, put_session, is_found, IsFresh, IsUnique}

pub find-put :
    (id j : String) (new : SessionRecord) (ss : Sessions)
    → new.id ≡ id
    → find_session (put_session id new ss) j ≡ (
        if id == j
        then (if is_found (find_session ss id) then some new else none)
        else find_session ss j)
unfolding find_session put_session
find-put id j new [] h = ground arith
find-put id j new (rec ∷ rest) h = ground (
  arith,
  find-put id j new rest h,
  eq_iff id j,
  eq_iff rec.id id,
  eq_iff rec.id j,
  eq_iff new.id j,
)

pub find-append :
    (j : String) (ss : Sessions) (rec : SessionRecord)
    → find_session (ss ++ rec ∷ []) j ≡ (
        if is_found (find_session ss j)
        then find_session ss j
        else if rec.id == j
        then some rec
        else none)
unfolding find_session
find-append j [] rec = ground arith
find-append j (x ∷ rest) rec = ground (arith, find-append j rest rec)

pub IsFresh-find : (id : String) (ss : Sessions) → IsFresh id ss → find_session ss id ≡ none
unfolding find_session
IsFresh-find id [] h = refl
IsFresh-find id (rec ∷ rest) h = ground (arith, IsFresh-find id rest h.1)

pub find-IsFresh : (id : String) (ss : Sessions) → find_session ss id ≡ none → IsFresh id ss
unfolding find_session
find-IsFresh id [] h = tt
find-IsFresh id (rec ∷ rest) h = ground (arith, find-IsFresh id rest)

-- the record found has the id that was looked for
pub find-id :
    (id : String) (ss : Sessions) {rec : SessionRecord}
    → find_session ss id ≡ some rec
    → rec.id ≡ id
unfolding find_session
find-id id [] h = cc
find-id id (x ∷ rest) {rec = r} h = ground (arith, find-id id rest {rec = r}, eq_iff x.id id)

abbrev SameLookup : Sessions → Sessions → Type 0
SameLookup xs ys = IsUnique ys × ((j : String) → find_session ys j ≡ find_session xs j)

IsFresh-SameLookup :
    (id : String) (xs ys : Sessions)
    → ((j : String) → find_session ys j ≡ find_session xs j)
    → IsFresh id xs
    → IsFresh id ys
IsFresh-SameLookup id xs ys same h = find-IsFresh id ys (same id ∙ IsFresh-find id xs h)

swap-SameLookup :
    (a b : SessionRecord) (l : Sessions) → IsUnique (a ∷ b ∷ l) → SameLookup (a ∷ b ∷ l) (b ∷ a ∷ l)
unfolding find_session
swap-SameLookup a b l u = (
  ((ground (arith, eq_iff a.id b.id, eq_iff b.id a.id), u.1.0), (u.0.1, u.1.1)),
  λ j. ground (arith, eq_iff a.id b.id, eq_iff b.id a.id, eq_iff a.id j, eq_iff b.id j),
)

reorderᴰ : {xs ys : Sessions} → Permᴰ xs ys → IsUnique xs → SameLookup xs ys
unfolding find_session
reorderᴰ Permᴰ.nil u = (tt, λ j. refl)
reorderᴰ (Permᴰ.cons {a} {b} {l₁} {l₂} e p) u =
    let (u', same) = reorderᴰ p u.1 in
    ((rw (← e) (IsFresh-SameLookup a.id l₁ l₂ same u.0), u'), λ j. ground (arith, same j, e))
reorderᴰ (Permᴰ.swap {a} {b} {a'} {b'} {l} e f) u =
    subst₂ (λ (x y : SessionRecord). SameLookup (a ∷ b ∷ l) (x ∷ y ∷ l)) f e
      (swap-SameLookup a b l u)
reorderᴰ (Permᴰ.trans p q) u =
    let (u', same) = reorderᴰ p u in
    let (u'', same') = reorderᴰ q u' in (u'', λ j. same' j ∙ same j)

SessionRecord-set : IsSet SessionRecord
SessionRecord-set = hlevel String-set

IsFresh-prop : (id : String) (ss : Sessions) → IsProp (IsFresh id ss)
IsFresh-prop id [] = hlevel
IsFresh-prop id (rec ∷ rest) = hlevel (IsFresh-prop id rest)

IsUnique-prop : (ss : Sessions) → IsProp (IsUnique ss)
IsUnique-prop [] = hlevel
IsUnique-prop (rec ∷ rest) = hlevel (IsFresh-prop rec.id rest, IsUnique-prop rest)

-- Reordering a list whose ids are unique changes no lookup.
pub find-Perm :
    {xs ys : Sessions}
    → Perm xs ys
    → IsUnique xs
    → (j : String) → find_session ys j ≡ find_session xs j
find-Perm p u j = ∥∥₁_elim p (hlevel SessionRecord-set) (λ d. (reorderᴰ d u).1 j)

pub IsUnique-Perm : {xs ys : Sessions} → Perm xs ys → IsUnique xs → IsUnique ys
IsUnique-Perm {ys} p u = ∥∥₁_elim p (IsUnique-prop ys) (λ d. (reorderᴰ d u).0)

IsFresh-put :
    (j id : String) (new : SessionRecord) (ss : Sessions)
    → new.id ≡ id
    → IsFresh j ss
    → IsFresh j (put_session id new ss)
unfolding put_session
IsFresh-put j id new [] h u = tt
IsFresh-put j id new (rec ∷ rest) h u =
    ground
      (arith, IsFresh-put j id new rest h u.1, eq_iff rec.id id, eq_iff rec.id j, eq_iff new.id j)

pub IsUnique-put :
    (id : String) (new : SessionRecord) (ss : Sessions)
    → new.id ≡ id
    → IsUnique ss
    → IsUnique (put_session id new ss)
unfolding put_session
IsUnique-put id new [] h u = tt
IsUnique-put id new (rec ∷ rest) h u = ground (
  arith,
  IsFresh-put rec.id id new rest h u.0,
  IsUnique-put id new rest h u.1,
  eq_iff rec.id id,
  eq_iff rec.id new.id,
)

IsFresh-append :
    (j : String) (ss : Sessions) (rec : SessionRecord)
    → IsFresh j ss
    → (rec.id == j) ≡ false
    → IsFresh j (ss ++ rec ∷ [])
IsFresh-append j [] rec u h = (h, tt)
IsFresh-append j (x ∷ rest) rec u h = (u.0, IsFresh-append j rest rec u.1 h)

pub IsUnique-append :
    (ss : Sessions) (rec : SessionRecord)
    → IsUnique ss
    → find_session ss rec.id ≡ none
    → IsUnique (ss ++ rec ∷ [])
unfolding find_session
IsUnique-append [] rec u h = (tt, tt)
IsUnique-append (x ∷ rest) rec u h = elim (Bool-cases (x.id == rec.id)) [
  | inl e ↦ ground (arith, e)
  | inr e ↦ (
    IsFresh-append x.id rest rec u.0 (ground (arith, eq_iff x.id rec.id, eq_iff rec.id x.id)),
    IsUnique-append rest rec u.1 (ground (arith, e)),
  )
]

pub find-put_self :
    (id : String) (new rec : SessionRecord) (ss : Sessions)
    → new.id ≡ id
    → find_session ss id ≡ some rec
    → find_session (put_session id new ss) id ≡ some new
find-put_self id new rec ss h found = ground (arith, find-put id id new ss h, eq_refl id, found)
