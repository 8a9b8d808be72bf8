-- ===== src/Canif/Again.antt =====
-- src/canif.c: `canif_add` of an interface that is in the list already.
use lwcan.Common.{
  ℕ, ◌<◌, ◌≡◌, ◌≢◌, refl, ◌∙◌, inl, inr, some, List, [], ◌∷◌, ◌++◌, arith, All, All-remove, length,
  ◌==◌, ltb, ◌||◌, Bool-cases, false,
}
use lwcan.Can.{LwcanErr, canif, canif_max, interface, is_ok}
use lwcan.Canif.{Canif}
use lwcan.Canif.Registry.{
  Registry, max_canif_num, name_size, new_canif, overwrite, link, initialised, canif_add,
}
use lwcan.Canif.Numbering.{choose_num_lem}
use lwcan.Canif.Registered.{Keeps}

overwrite-present :
    (c : Canif) (pre : List Canif) (x : Canif) (post : List Canif)
    → x.addr ≡ c.addr
    → All (λ y. y.addr ≢ c.addr) pre
    → overwrite c (pre ++ (x ∷ post)) ≡ pre ++ (c ∷ [])
unfolding overwrite
overwrite-present c [] x post at others = ground arith
overwrite-present c (y ∷ pre) x post at others =
    let e : (y.addr == c.addr) ≡ false = ground (arith, others.0) in
    rw (e, overwrite-present c pre x post at others.1) refl

-- The list ends with the interface.
abbrev pub Cut : ℕ → List Canif → LwcanErr × Registry → Type 0
Cut addr pre r = (c : Canif) × (r.1.list ≡ pre ++ (c ∷ [])) × (c.addr ≡ addr) × (is_ok r.0 ≡ false)

initialised-again :
    (error : LwcanErr) (c : Canif) (s : Registry) (pre : List Canif) (x : Canif) (post : List Canif)
    → c.num < max_canif_num
    → s.list ≡ pre ++ (x ∷ post)
    → x.addr ≡ c.addr
    → All (λ y. y.addr ≢ c.addr) pre
    → (r : LwcanErr × Registry) × (initialised (error, c) s ≡ some r) × Cut c.addr pre r
unfolding initialised link
initialised-again error c s pre x post small split at others = elim (Bool-cases (is_ok error)) [
  | inr failed ↦ (
    (interface, record s { list = pre ++ (c ∷ []) }),
    rw (failed, split, here, initialised) refl,
    (c, refl, refl, refl),
  )
  | inl done ↦
      let (error', num, e, _, chosen) = choose_num_lem c.addr c.num (pre ++ (c ∷ [])) small in
      let c' : Canif = record c { num = num } in
      let found : initialised (error, c) s ≡ some (link c (pre ++ (c ∷ [])) s (error', num)) =
        rw (split, done, here, e, initialised) refl in
      let again : overwrite c' (pre ++ (c ∷ [])) ≡ pre ++ (c' ∷ []) =
        overwrite-present c' pre c [] refl others in
      elim chosen [
        | inl (_, _, absent, _, _) ↦
            absurd ((All-remove (λ y. y.addr ≢ c.addr) pre c [] absent).0 refl)
        | inr (inl (e', _)) ↦ (
          (canif, record s { list = pre ++ (c' ∷ []) }),
          found ∙ rw (e', again, link) refl,
          (c', refl, refl, refl),
        )
        | inr (inr (e', _)) ↦ (
          (canif_max, record s { list = pre ++ (c' ∷ []) }),
          found ∙ rw (e', again, link) refl,
          (c', refl, refl, refl),
        )
      ]
]
  where
    here : overwrite c (pre ++ (x ∷ post)) ≡ pre ++ (c ∷ [])
    here = overwrite-present c pre x post at others

-- Where the name has one to four bytes, the next number to try is below 254, and init keeps the
-- number and the address, canif_add of an interface that is registered already does not succeed,
-- and cuts the list behind it.
pub canif_add-listed :
    (addr : ℕ) (name : List ℕ) (init : Canif → LwcanErr × Canif) (s : Registry) (pre : List Canif)
    (x : Canif) (post : List Canif)
    → 0 < length name
    → length name < 5
    → Keeps init
    → s.canif_num < max_canif_num
    → s.list ≡ pre ++ (x ∷ post)
    → x.addr ≡ addr
    → All (λ y. y.addr ≢ addr) pre
    → (r : LwcanErr × Registry) × (canif_add (some addr) (some name) (some init) s ≡ some r)
      × Cut addr pre r
unfolding canif_add
canif_add-listed addr name init s pre x post some_name fits keeps small split at others =
    let good : ((length name == 0) || ltb name_size (length name)) ≡ false = ground arith in
    let made = init (new_canif addr name s.canif_num) in
    let (place, num) = keeps (new_canif addr name s.canif_num) in
    let (r, e, (c, shape, here, failed)) =
      initialised-again made.0 made.1 s pre x post (rw num small) split (rw place at)
        (rw place others) in
    (r, rw good e, (c, shape, here ∙ place, failed))
