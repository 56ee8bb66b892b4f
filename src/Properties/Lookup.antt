-- ===== src/Properties/Lookup.antt =====
-- Reads after writes.
use ycsb_c_copy.Prelude.{
  ◌≡◌, ◌↔◌, refl, [], ◌∷◌, some, none, if◌then◌else◌, Bytes, equal, equal_iff, arith,
}
use ycsb_c_copy.Properties.{Properties, find, get_property, at, set_property}
use ycsb_c_copy.Run.{ok, fault, out_of_range}

pub find-set_property :
    (p : Properties) (key value j : Bytes)
    → find j (set_property p key value) ≡ (if equal key j then some value else find j p)
unfolding find set_property
find-set_property [] key value j = refl
find-set_property ((k, v) ∷ p) key value j =
    ground (arith, find-set_property p key value j, equal_iff k key, equal_iff k j, equal_iff key j)

-- After `SetProperty` the key reads as the new value, whatever the default, and every other key
-- as before; `operator[]` throws `out_of_range` at a key that was never set, and only there.
pub get_property-set_property :
    (p : Properties) (key value j d : Bytes)
    → (get_property (set_property p key value) j d
        ≡ (if equal key j then value else get_property p j d))
      × (at (set_property p key value) j ≡ (if equal key j then ok value else at p j))
      × ((at p j ≡ fault out_of_range) ↔ (find j p ≡ none))
unfolding get_property at
get_property-set_property p key value j d =
    let e = find-set_property p key value j in
    (ground (arith, e), ground (arith, e), (λ h. ground arith, λ h. ground arith))
