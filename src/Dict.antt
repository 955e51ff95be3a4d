-- ===== src/Dict.antt =====
-- Python's `dict` and `set` with byte strings as keys. The code never relies on the order of keys.
use foxess_local_gateway.Prelude.{
  ℕ, ◌≡◌, refl, arith, List, [], ◌∷◌, Bool, true, false, ◌||◌, ◌&&◌, not, Option, none, some, ◌=b◌,
  =b-refl, =b→eq, if◌then◌else◌, ◌↔◌,
}

pub =b_iff : (xs ys : List ℕ) → ((xs =b ys) ≡ true) ↔ (xs ≡ ys)
=b_iff xs ys = (=b→eq xs ys, λ e. rw e (=b-refl ys))

module _ {ℓ} {V : Type ℓ} where
  -- `d.get(key)`
  unfoldable pub get : List ℕ → List (List ℕ × V) → Option V
  get k [] = none
  get k ((j, v) ∷ d) = if j =b k then some v else get k d

  -- `d[key] = value`
  unfoldable pub put : List ℕ → V → List (List ℕ × V) → List (List ℕ × V)
  put k v [] = (k, v) ∷ []
  put k v ((j, w) ∷ d) = if j =b k then (k, v) ∷ d else (j, w) ∷ put k v d

  -- `d.pop(key, None)`
  unfoldable pub pop : List ℕ → List (List ℕ × V) → List (List ℕ × V)
  pop k [] = []
  pop k ((j, v) ∷ d) = let rest = pop k d in if j =b k then rest else (j, v) ∷ rest

  pub get-put :
      (k j : List ℕ) (v : V) (d : List (List ℕ × V))
      → get j (put k v d) ≡ (if k =b j then some v else get j d)
  unfolding get put
  get-put k j v [] = refl
  get-put k j v ((i, w) ∷ d) = ground (arith, =b_iff k j, =b_iff i k, =b_iff i j, get-put k j v d)

  pub get-pop :
      (k j : List ℕ) (d : List (List ℕ × V)) → get j (pop k d) ≡ (if k =b j then none else get j d)
  unfolding get pop
  get-pop k j [] = ground arith
  get-pop k j ((i, w) ∷ d) = ground (arith, =b_iff k j, =b_iff i k, =b_iff i j, get-pop k j d)

-- `key in s`
unfoldable pub member : List ℕ → List (List ℕ) → Bool
member k [] = false
member k (j ∷ s) = j =b k || member k s

-- `s.discard(serial)`
unfoldable pub discard : List ℕ → List (List ℕ) → List (List ℕ)
discard serial [] = []
discard serial (j ∷ s) = let rest = discard serial s in if j =b serial then rest else j ∷ rest

pub member-discard :
    (s j : List ℕ) (xs : List (List ℕ)) → member s (discard j xs) ≡ (not (j =b s) && member s xs)
unfolding member discard
member-discard s j [] = ground arith
member-discard s j (x ∷ xs) =
    ground (arith, member-discard s j xs, =b_iff j s, =b_iff x j, =b_iff x s)
