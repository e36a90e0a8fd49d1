-- ===== src/Domains/Removal.antt =====
-- crates/wayjournal-core/src/domains.rs: the removal of a list of ids, and the tests of a step.
use wayjournal_build_attesta.Prelude.{
  ◌≡◌, refl, ap, Bool, true, false, ◌&&◌, none, List, [], ◌∷◌, Ord, nat_ord, pair_ord, list_ord,
  eqb, Outcome, ok, err, fault, require, arith, if◌then◌else◌, mem,
}
use wayjournal_build_attesta.Ids.{Text, RecordId}
use wayjournal_build_attesta.Domains.{ScalarField, SetField, scalar_ord, set_ord}
use wayjournal_build_attesta.Domains.Fold.{
  FoldState, fold_state, remove_registers, remove_adds, ensure_reachability_budget, same_ids,
}
use wayjournal_build_attesta.Domains.Entries.{active_at, active_at-remove}
use wayjournal_build_attesta.Domains.Steps.{same_of_eqb}

abbrev pub pair_key : Ord (SetField × Text)
pair_key = pair_ord

pub remove_registers-active :
    (s : FoldState) (f g : ScalarField) (ids : List RecordId) (i : RecordId)
    → active_at g i (remove_registers s f ids).registers
      ≡ (if eqb f g && mem i ids then none else active_at g i s.registers)
unfolding remove_registers
remove_registers-active s f g [] i = ground arith
remove_registers-active s f g (id ∷ ids) i = ground (
  arith,
  remove_registers-active (fold_state.remove_register s f id) f g ids i,
  active_at-remove f g id i s.registers,
)

pub remove_registers-adds :
    (s : FoldState) (f : ScalarField) (ids : List RecordId)
    → (remove_registers s f ids).adds ≡ s.adds
unfolding remove_registers
remove_registers-adds s f [] = refl
remove_registers-adds s f (id ∷ ids) =
    remove_registers-adds (fold_state.remove_register s f id) f ids

pub remove_adds-active :
    (s : FoldState) (f g : SetField) (k j : Text) (ids : List RecordId) (i : RecordId)
    → active_at (g, j) i (remove_adds s f k ids).adds ≡ (
        if eqb {K = SetField × Text} (f, k) (g, j) && mem i ids
        then none
        else active_at (g, j) i s.adds)
unfolding remove_adds
remove_adds-active s f g k j [] i = ground arith
remove_adds-active s f g k j (id ∷ ids) i = ground (
  arith,
  remove_adds-active (fold_state.remove_add s f k id) f g k j ids i,
  active_at-remove (f, k) (g, j) id i s.adds,
)

pub remove_adds-registers :
    (s : FoldState) (f : SetField) (k : Text) (ids : List RecordId)
    → (remove_adds s f k ids).registers ≡ s.registers
unfolding remove_adds
remove_adds-registers s f k [] = refl
remove_adds-registers s f k (id ∷ ids) =
    remove_adds-registers (fold_state.remove_add s f k id) f k ids

pub same_of_ok {ℓ κ} :
    {E : Type ℓ} {A : Type κ} (a b : A) → ◌≡◌ {A = Outcome E A} (ok a) (ok b) → a ≡ b
same_of_ok a b e = ap (λ m. elim m [ ok x ↦ x | err y ↦ a | fault ↦ a ]) e

pub ensured :
    (exceeded : Bool) (u : Unit {0}) → ensure_reachability_budget exceeded ≡ ok u → exceeded ≡ false
unfolding ensure_reachability_budget
ensured true u e = cc
ensured false u e = refl

pub required {ℓ} : {E : Type ℓ} (b : Bool) (e : E) (u : Unit {0}) → require b e ≡ ok u → b ≡ true
required true e u h = refl
required false e u h = cc

pub same_ids-eq : (xs ys : List RecordId) → same_ids xs ys ≡ true → xs ≡ ys
unfolding same_ids
same_ids-eq xs ys h = same_of_eqb xs ys h
