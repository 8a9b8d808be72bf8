-- ===== src/Canif/Tests.antt =====
-- Two interfaces, and a third that is registered.
use lwcan.Common.{ℕ, ◌<◌, ◌≡◌, ◌≢◌, ◌⊎◌, refl, some, List, [], ◌∷◌, arith, All, length}
use lwcan.Can.{LwcanErr, ok, arg}
use lwcan.Canif.{Canif, get_index, get_by_index}
use lwcan.Canif.Registry.{Registry, name_size, new_canif, canif_add, canif_remove}
use lwcan.Canif.Again.{Cut, canif_add-listed}
use lwcan.Canif.Registered.{
  IsValid, Ending, canif_add-IsValid, canif_remove-IsValid, get_by_index-get_index,
}

abbrev can_name : ℕ → List ℕ
can_name digit = 99 ∷ 97 ∷ 110 ∷ digit ∷ []

abbrev first : Canif
first = new_canif 700 (can_name 48) 253

abbrev second : Canif
second = new_canif 800 (can_name 49) 0

abbrev two : Registry
two = record { list = second ∷ first ∷ []; canif_num = 253 }

abbrev two-IsValid : IsValid two
two-IsValid = record {
  small = (omega arith, (omega arith, tt));
  nums = ((λ e. omega (arith, e), tt), (tt, tt));
  addrs = ((λ e. omega (arith, e), tt), (tt, tt));
  room = omega arith;
  next = omega arith;
}

abbrev driver : Canif → LwcanErr × Canif
driver c = (ok, record c { set_bitrate = some 9 })

-- The hint is in use, 0 is too.
third_num :
    canif_add (some 900) (some (can_name 50)) (some driver) two
    ≡ some (
      ok,
      record {
        list = record (driver (new_canif 900 (can_name 50) 1)).1 { num = 1 } ∷ second ∷ first ∷ [];
        canif_num = 2;
      },
    )
unfolding canif_add
third_num = refl

canif_add-IsValid_example :
    (r : LwcanErr × Registry) × (canif_add (some 900) (some (can_name 50)) (some driver) two
      ≡ some r)
    × IsValid r.1
    × (((length (can_name 50) ≡ 0) ⊎ (name_size < length (can_name 50))) × (r ≡ (arg, two))
        ⊎ Ending (driver (new_canif 900 (can_name 50) 253)) two r)
canif_add-IsValid_example =
    canif_add-IsValid 900 (can_name 50) driver two two-IsValid (λ c. (refl, refl))
      (λ e. omega (arith, e), (λ e. omega (arith, e), tt))

canif_remove-IsValid_example :
    IsValid (canif_remove (some 700) two).1
    × All (λ x. x.addr ≢ 700) (canif_remove (some 700) two).1.list
canif_remove-IsValid_example = canif_remove-IsValid 700 two two-IsValid

get_by_index-get_index_example : get_by_index (get_index (some first)) two.list ≡ some first
get_by_index-get_index_example = get_by_index-get_index (second ∷ []) first [] two two-IsValid refl

-- The second interface is registered again, and the first is lost.
canif_add-listed_example :
    (r : LwcanErr × Registry) × (canif_add (some 800) (some (can_name 49)) (some driver) two
      ≡ some r)
    × Cut 800 [] r
canif_add-listed_example =
    canif_add-listed 800 (can_name 49) driver two [] second (first ∷ []) (omega arith) (omega arith)
      (λ c. (refl, refl)) (omega arith) refl refl tt
