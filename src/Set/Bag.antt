-- ===== src/Set/Bag.antt =====
-- What a set of src/set.rs promises: signals that the handle inserts wait in order until the set is
-- updated, and `remove` puts the last signal in the place of the removed one.
use oddio.Base.{ℕ, Option, some, List, [], ◌∷◌, ◌++◌, ◌>>=◌}
use oddio.Set.{World}
use oddio.Set.Handle
use oddio.Set.Inner
use oddio.Set.Inner.{swap_remove}

pub record Bag {ℓ} (T : Type ℓ) : Type ℓ where
  pub items : List T
  pub pending : List T

-- a call on the handle (`insert`) or on the set
pub data Call {ℓ} (T : Type ℓ) : Type ℓ where
  insert : T → Call T
  update : Call T
  remove : ℕ → Call T

module _ {ℓ} {T : Type ℓ} where
  abbrev pub nothing : Bag T
  nothing = record { items = []; pending = [] }

  -- `none` is a removal out of range.
  unfoldable pub promise : Bag T → Call T → Option (Bag T)
  promise b (insert x) = some (record b { pending = b.pending ++ x ∷ [] })
  promise b update = some (record { items = b.items ++ b.pending; pending = [] })
  promise b (remove i) = do (x, rest) ← swap_remove b.items i; some (record b { items = rest })

  unfoldable pub promises : Bag T → List (Call T) → Option (Bag T)
  promises b [] = some b
  promises b (c ∷ cs) = promise b c >>= λ b'. promises b' cs

  -- the same calls on the code, `none` being a panic
  unfoldable pub call : ℕ → World T → Call T → Option (World T)
  call fuel w (insert x) = Handle.insert w x
  call fuel w update = Inner.update fuel w
  call fuel w (remove i) = Inner.remove w i

  unfoldable pub calls : ℕ → World T → List (Call T) → Option (World T)
  calls fuel w [] = some w
  calls fuel w (c ∷ cs) = call fuel w c >>= λ w'. calls fuel w' cs
