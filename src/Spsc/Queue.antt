-- ===== src/Spsc/Queue.antt =====
-- What a channel promises: a bounded queue of which the receiver sees a prefix.
use oddio.Base.{
  ℕ, ◌-◌, ◌≤◌, min, Bool, true, false, Option, none, some, List, [], ◌∷◌, ◌++◌, map, length, take,
  drop, get_elem?, ltb, leb, ◌==◌, if◌then◌else◌,
}

-- The calls of the two ends, in the order in which they take effect.
pub data Op {ℓ} (A : Type ℓ) : Type ℓ where
  send : A → ℕ → Op A
  send_slice : List A → Op A
  free : Op A
  update : Op A
  pop : Op A
  release : ℕ → Op A
  index : ℕ → Op A

-- What a call gives back.
pub data Reply {ℓ} (A : Type ℓ) : Type ℓ where
  accepted : Bool → Reply A
  number : ℕ → Reply A
  item : Option (Option A) → Reply A
  items : List (Option A) → Reply A
  done : Reply A
  panicked : Reply A

pub record Queue {ℓ} (A : Type ℓ) : Type ℓ where
  pub cap : ℕ
  pub content : List A
  pub seen : ℕ

module _ {ℓ} {A : Type ℓ} where
  abbrev pub room : Queue A → ℕ
  room q = q.cap - length q.content

  unfoldable pub step : Queue A → Op A → Reply A × Queue A
  step q (Op.send x reserve) =
      if leb (room q) reserve
      then (accepted false, q)
      else (accepted true, record q { content = q.content ++ x ∷ [] })
  step q (Op.send_slice xs) =
      let n = min (room q) (length xs) in (number n, record q { content = q.content ++ take n xs })
  step q Op.free = (number (room q), q)
  step q Op.update = (done, record q { seen = length q.content })
  step q Op.pop = if q.seen == 0 then (item none, q) else (
    item (some (get_elem? q.content 0)),
    record q { content = drop 1 q.content; seen = q.seen - 1 },
  )
  step q (Op.release n) =
      if leb n q.seen
      then (
        items (map some (take n q.content)),
        record q { content = drop n q.content; seen = q.seen - n },
      )
      else (panicked, q)
  step q (Op.index i) = (item (if ltb i q.seen then some (get_elem? q.content i) else none), q)

  -- Whenever a call sends with a reserve, that much room is left.
  unfoldable pub HasReserves : Queue A → List (Op A) → Type 0
  HasReserves q [] = Unit
  HasReserves q (op ∷ ops) =
      (elim op [ Op.send x reserve ↦ reserve ≤ room q | _ ↦ Unit ]) × HasReserves (step q op).1 ops

  unfoldable pub run : Queue A → List (Op A) → List (Reply A)
  run q [] = []
  run q (op ∷ ops) = let (r, q') = step q op in r ∷ run q' ops
