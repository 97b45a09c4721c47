-- ===== src/Set/Sweep.antt =====
-- The loop that a mixer and a spatial scene run over a set,
-- `for i in (0..set.len()).rev() { let signal = &mut set[i]; …; if … { set.remove(i); continue; } … }`.
pub mod Order
pub mod Safe
use oddio.Base.{
  ℕ, zero, suc, Bool, true, false, Option, none, some, List, [], ◌∷◌, length, get_elem?, set,
  if◌then◌else◌, ◌>>=◌, ◌>>◌,
}
use oddio.Set.{World}
use oddio.Set.Inner.{remove}

-- What the body of the loop does to one signal: the signal and the caller's state afterwards, and
-- whether the signal stays.
pub record Visit {ℓ κ} (T : Type ℓ) (R : Type κ) : Type (ℓ ⊔ κ) where
  pub stays : Bool
  pub item : T
  pub state : R

module _ {ℓ κ} {T : Type ℓ} {R : Type κ} (visit : R → T → Option (Visit T R)) where
  unfoldable pub sweep : ℕ → World T → R → Option (World T × R)
  sweep zero w r = some (w, r)
  sweep (suc i) w r = do
    x ← get_elem? w.signals.items i
    v ← visit r x
    let w1 = record w { signals = record w.signals { items = set w.signals.items i v.item } }
    w2 ← if v.stays then some w1 else remove w1 i
    sweep i w2 v.state

  unfoldable pub sweep_all : World T → R → Option (World T × R)
  sweep_all w r = sweep (length w.signals.items) w r
