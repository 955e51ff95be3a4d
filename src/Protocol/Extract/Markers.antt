-- ===== src/Protocol/Extract/Markers.antt =====
-- Where a two-byte marker is found when a buffer grows.
use foxess_local_gateway.Prelude.{
  ℕ, zero, suc, ◌+◌, ◌≤◌, ◌≡◌, refl, arith, List, [], ◌∷◌, ◌++◌, length, drop, Option, none, some,
  ◌⊎◌, inl, inr,
}
use foxess_local_gateway.Bytes.{find}
use foxess_local_gateway.Protocol.Extract.{earliest, marker_7e, marker_7f}

module _ (p q : ℕ) where
  -- What was found stays where it is.
  pub find-append :
      (a b : List ℕ) (i : ℕ)
      → find (p ∷ q ∷ []) a ≡ some i
      → (find (p ∷ q ∷ []) (a ++ b) ≡ some i) × (i + 2 ≤ length a)
  find-append [] b i h = ground arith
  find-append (x ∷ []) b i h = ground arith
  find-append (x ∷ y ∷ a) b zero h = ground (arith)
  find-append (x ∷ y ∷ a) b (suc i) h = ground (arith, find-append (y ∷ a) b i)

  -- What was not found can only appear at the end.
  pub find-append_none :
      (a b : List ℕ) (j : ℕ)
      → find (p ∷ q ∷ []) a ≡ none
      → find (p ∷ q ∷ []) (a ++ b) ≡ some j
      → length a ≤ j + 1
  find-append_none [] b j h k = omega arith
  find-append_none (x ∷ []) b j h k = omega arith
  find-append_none (x ∷ y ∷ a) b zero h k = ground arith
  find-append_none (x ∷ y ∷ a) b (suc j) h k = ground (arith, find-append_none (y ∷ a) b j)

  -- The marker stands where it was found.
  pub find-drop :
      (a : List ℕ) (i : ℕ)
      → find (p ∷ q ∷ []) a ≡ some i
      → (tail : List ℕ) × (drop i a ≡ p ∷ q ∷ tail)
  find-drop [] i h = ground arith
  find-drop (x ∷ []) i h = ground arith
  find-drop (x ∷ y ∷ a) zero h = (a, ground arith)
  find-drop (x ∷ y ∷ a) (suc i) h = find-drop (y ∷ a) i (ground arith)

  pub find-head : (tail : List ℕ) → find (p ∷ q ∷ []) (p ∷ q ∷ tail) ≡ some 0
  find-head tail = ground arith

-- How a search result `o` over a buffer of `n` bytes relates to `o'` over a longer one.
record Grows (n : ℕ) (o o' : Option ℕ) : Type 0 where
  found : (i : ℕ) → o ≡ some i → (o' ≡ some i) × (i + 2 ≤ n)
  fresh : (j : ℕ) → o ≡ none → o' ≡ some j → n ≤ j + 1

find-Grows :
    (p q : ℕ) (a b : List ℕ) → Grows (length a) (find (p ∷ q ∷ []) a) (find (p ∷ q ∷ []) (a ++ b))
find-Grows p q a b = record {
  found = λ i h. find-append p q a b i h;
  fresh = λ j h k. find-append_none p q a b j h k;
}

earliest-Grows :
    (n i : ℕ) (e f e' f' : Option ℕ)
    → Grows n e e'
    → Grows n f f'
    → earliest e f ≡ some i
    → (earliest e' f' ≡ some i) × (i ≤ n)
earliest-Grows n i none none e' f' g h k = ground arith
earliest-Grows n i (some x) none e' none g h k = ground (arith, g.found x refl)
earliest-Grows n i (some x) none e' (some y) g h k =
    ground (arith, g.found x refl, h.fresh y refl refl)
earliest-Grows n i none (some y) none f' g h k = ground (arith, h.found y refl)
earliest-Grows n i none (some y) (some x) f' g h k =
    ground (arith, h.found y refl, g.fresh x refl refl)
earliest-Grows n i (some x) (some y) e' f' g h k = ground (arith, g.found x refl, h.found y refl)

-- A buffer that begins with a start marker.
pub data Marked : List ℕ → Type 0 where
  is_7e : (tail : List ℕ) → Marked (0x7e ∷ 0x7e ∷ tail)
  is_7f : (tail : List ℕ) → Marked (0x7f ∷ 0x7f ∷ tail)

earliest_one : (i : ℕ) (e f : Option ℕ) → earliest e f ≡ some i → (e ≡ some i) ⊎ (f ≡ some i)
earliest_one i none none h = ground arith
earliest_one i (some x) none h = inl h
earliest_one i none (some y) h = inr h
earliest_one i (some x) (some y) h = ground arith

-- The offset of the first start marker.
abbrev pub first_marker : List ℕ → Option ℕ
first_marker a = earliest (find marker_7e a) (find marker_7f a)

-- A first marker that was found stays the first when bytes are added behind.
pub first_marker-append :
    (a b : List ℕ) (i : ℕ)
    → first_marker a ≡ some i
    → (first_marker (a ++ b) ≡ some i) × (i ≤ length a)
first_marker-append a b i h =
    earliest-Grows (length a) i (find marker_7e a) (find marker_7f a) _ _ (find-Grows 0x7e 0x7e a b)
      (find-Grows 0x7f 0x7f a b) h

pub first_marker-Marked : (a : List ℕ) (i : ℕ) → first_marker a ≡ some i → Marked (drop i a)
first_marker-Marked a i h = elim (earliest_one i (find marker_7e a) (find marker_7f a) h) [
  | inl e ↦ let (tail, d) = find-drop 0x7e 0x7e a i e in rw d (is_7e tail)
  | inr f ↦ let (tail, d) = find-drop 0x7f 0x7f a i f in rw d (is_7f tail)
]

zero_left : (o : Option ℕ) → earliest (some 0) o ≡ some 0
zero_left none = refl
zero_left (some j) = ground arith

zero_right : (o : Option ℕ) → earliest o (some 0) ≡ some 0
zero_right none = refl
zero_right (some j) = ground arith

-- It is found at once.
pub Marked-first : {a : List ℕ} → Marked a → first_marker a ≡ some 0
Marked-first (is_7e tail) = zero_left (find marker_7f (0x7e ∷ 0x7e ∷ tail))
Marked-first (is_7f tail) = zero_right (find marker_7e (0x7f ∷ 0x7f ∷ tail))
