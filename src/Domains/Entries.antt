-- ===== src/Domains/Entries.antt =====
-- crates/wayjournal-core/src/domains.rs: the two-level maps of a fold state, read at a key and an id.
use wayjournal_build_attesta.Prelude.{
  ◌≡◌, refl, ◌&&◌, Option, none, some, [], ◌∷◌, arith, Ord, nat_ord, eqb, ◌==◌, if◌then◌else◌, mem,
  is_some, inl, inr, Option-cases,
}
use wayjournal_build_attesta.Ids.{RecordId}
use wayjournal_build_attesta.Collections.Map
use wayjournal_build_attesta.Collections.Map.{Map, get-insert, get-remove}
use wayjournal_build_attesta.Domains.Fold.{entry_or, update_entry}

pub mem-keys {ℓ} :
    {V : Type ℓ} (i : RecordId) (m : Map RecordId V) → mem i (Map.keys m) ≡ is_some (Map.get i m)
unfolding Map.get
mem-keys i [] = refl
mem-keys i ((j, v) ∷ m) = ground (arith, mem-keys i m)

module _ {ℓ κ} {K : Type ℓ} {V : Type κ} ⦃o : Ord K⦄ where
  -- the value of an id under a key
  abbrev pub active_at : K → RecordId → Map K (Map RecordId V) → Option V
  active_at k i m = Map.get i (entry_or [] k m)

  module _ (k j : K) (i n : RecordId) (m : Map K (Map RecordId V)) where
    pub active_at-put :
        (v : V)
        → active_at j n (Map.insert k (Map.insert i v (entry_or [] k m)) m)
          ≡ (if eqb k j && (i == n) then some v else active_at j n m)
    unfolding entry_or
    active_at-put v = ground (
      arith,
      get-insert k j (Map.insert i v (entry_or [] k m)) m,
      get-insert i n v (entry_or [] k m),
      o.same_of_eq k j,
    )

    pub active_at-remove :
        active_at j n (update_entry (Map.remove i) k m)
        ≡ (if eqb k j && (i == n) then none else active_at j n m)
    unfolding entry_or update_entry Map.get
    active_at-remove = elim (Option-cases (Map.get k m)) [
      | inl e ↦ ground (arith, e, o.same_of_eq k j)
      | inr (found, e) ↦
          ground (
            arith,
            e,
            get-insert k j (Map.remove i found) m,
            get-remove i n found,
            o.same_of_eq k j,
          )
    ]
