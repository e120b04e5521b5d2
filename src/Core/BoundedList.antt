-- ===== src/Core/BoundedList.antt =====
-- fyles_service/core/src/library/bounded_list.rs: a list that refuses items when it is full. The capacity
-- of its vector does not show.
use mathlib.Core.List.{append_assoc, append-nil}
use fyles_release.Base.{
  ℕ, zero, suc, ◌+◌, ◌≡◌, refl, sym, ◌∙◌, Bool, true, false, List, [], ◌∷◌, ◌++◌, if◌then◌else◌,
  ltb, ◌==◌, length, arith,
}

pub record BoundedList (A : Type 0) : Type 0 where
  pub items : List A
  pub max_size : ℕ

-- `Ok(())`, or the item that did not fit.
pub data PushRes (A : Type 0) : Type 0 where
  pushed : PushRes A
  refused : A → PushRes A

module _ {A : Type 0} where
  -- `new` and `with_capacity`.
  unfoldable pub new : ℕ → BoundedList A
  new max_size = record { items = []; max_size = max_size }

  unfoldable pub push : BoundedList A → A → PushRes A × BoundedList A
  push l item =
      if ltb (length l.items) l.max_size
      then (pushed, record l { items = l.items ++ (item ∷ []) })
      else (refused item, l)

  unfoldable pub items_len : BoundedList A → ℕ
  items_len l = length l.items

  unfoldable pub is_empty : BoundedList A → Bool
  is_empty l = length l.items == 0

  unfoldable pub is_full : BoundedList A → Bool
  is_full l = length l.items == l.max_size

  -- All pushes of a sequence, with the refused items in order.
  unfoldable pub push_all : BoundedList A → List A → List A × BoundedList A
  push_all l [] = ([], l)
  push_all l (x ∷ xs) =
      let (res, l') = push l x in
      let (left, l'') = push_all l' xs in
      elim res [ pushed ↦ (left, l'') | refused y ↦ (y ∷ left, l'') ]

  abbrev pub take : ℕ → List A → List A
  take zero xs = []
  take (suc n) [] = []
  take (suc n) (x ∷ xs) = x ∷ take n xs

  abbrev pub drop : ℕ → List A → List A
  drop zero xs = xs
  drop (suc n) [] = []
  drop (suc n) (x ∷ xs) = drop n xs

  length-append_one : (xs : List A) (x : A) → length (xs ++ (x ∷ [])) ≡ length xs + 1
  length-append_one [] x = refl
  length-append_one (y ∷ xs) x = omega (arith, length-append_one xs x)

  -- A sequence of pushes keeps the items that still fit, in their order, and refuses the others, in
  -- theirs; the bound stays.
  pub push_all_lem :
      (l : BoundedList A) (xs : List A) (room : ℕ)
      → l.max_size ≡ length l.items + room
      → (push_all l xs).0 ≡ drop room xs
        × ((push_all l xs).1.items ≡ l.items ++ take room xs)
        × ((push_all l xs).1.max_size ≡ l.max_size)
  unfolding push_all push
  push_all_lem l [] zero h = (refl, sym (append-nil l.items), refl)
  push_all_lem l [] (suc room) h = (refl, sym (append-nil l.items), refl)
  push_all_lem l (x ∷ xs) zero h =
      let (a, b, c) = push_all_lem l xs zero h in
      let no : ltb (length l.items) l.max_size ≡ false = ground (arith, h) in
      (ground (arith, no, a), ground (arith, no, b), ground (arith, no, c))
  push_all_lem l (x ∷ xs) (suc room) h =
      let l' : BoundedList A = record l { items = l.items ++ (x ∷ []) } in
      let (a, b, c) = push_all_lem l' xs room (omega (arith, length-append_one l.items x)) in
      let fits : ltb (length l.items) l.max_size ≡ true = ground (arith, h) in
      let b' = b ∙ append_assoc l.items (x ∷ []) (take room xs) in
      (ground (arith, fits, a), ground (arith, fits, b'), ground (arith, fits, c))
