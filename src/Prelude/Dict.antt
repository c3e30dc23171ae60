-- ===== src/Prelude/Dict.antt =====
-- The source's `std::unordered_map` from texts: an association list whose keys are distinct. The order
-- of the entries is the newest first; the source shows no names but sorted ones.
use curiodb.Prelude.Tests.{if◌then◌else◌, is_some, Bool-cases}
use curiodb.Prelude.Lists.{All}
use curiodb.Prelude.Text.{text_eq, text_eq_iff, text_eq_refl}
use Prim.Native.Nat.{ℕ}
use mathlib.Core.Path.{◌≡◌, refl, sym, subst, subst₂}
use mathlib.Core.Logic.{inl, inr}
use mathlib.Core.Bool.{Bool}
use mathlib.Core.Option.{Option, none, some}
use mathlib.Core.List.{List, [], ◌∷◌}
use native.Mathlib.Omega.{arith}

abbrev pub Dict : Type 0 → Type 0
Dict V = List (List ℕ × V)

module _ {V : Type 0} where
  -- `find`
  unfoldable pub lookup : List ℕ → Dict V → Option V
  lookup k [] = none
  lookup k ((j, v) ∷ m) = if text_eq j k then some v else lookup k m

  unfoldable pub contains : List ℕ → Dict V → Bool
  unfolding lookup
  contains k m = is_some (lookup k m)

  -- `emplace` and `try_emplace` change nothing where the key is there.
  unfoldable pub emplace : List ℕ → V → Dict V → Dict V
  unfolding contains
  emplace k v m = if contains k m then m else (k, v) ∷ m

  -- A write through the reference to the value of a key that is there.
  unfoldable pub replace : List ℕ → V → Dict V → Dict V
  replace k v [] = []
  replace k v ((j, w) ∷ m) = if text_eq j k then (j, v) ∷ m else (j, w) ∷ replace k v m

  abbrev pub Distinct : Dict V → Type 0
  Distinct [] = Unit
  Distinct ((k, v) ∷ m) = (lookup k m ≡ none) × Distinct m

  pub lookup-emplace :
      (k j : List ℕ) (v : V) (m : Dict V)
      → lookup k m ≡ none
      → lookup j (emplace k v m) ≡ (if text_eq k j then some v else lookup j m)
  unfolding emplace lookup
  lookup-emplace k j v m h = rw (h, is_some) refl

  pub lookup-replace :
      (k j : List ℕ) (v w : V) (m : Dict V)
      → lookup k m ≡ some w
      → lookup j (replace k v m) ≡ (if text_eq k j then some v else lookup j m)
  unfolding replace lookup
  lookup-replace k j v w [] h = absurd (ground arith)
  lookup-replace k j v w ((i, u) ∷ m) h =
      ground (arith, text_eq_iff i k, text_eq_iff k j, text_eq_iff i j, lookup-replace k j v w m)

  pub lookup-emplace_self :
      (k : List ℕ) (v : V) (m : Dict V) → lookup k m ≡ none → lookup k (emplace k v m) ≡ some v
  lookup-emplace_self k v m h = rw (lookup-emplace k k v m h, text_eq_refl k) refl

  pub lookup-replace_self :
      (k : List ℕ) (v w : V) (m : Dict V) → lookup k m ≡ some w → lookup k (replace k v m) ≡ some v
  lookup-replace_self k v w m h = rw (lookup-replace k k v w m h, text_eq_refl k) refl

  pub emplace-Distinct : (k : List ℕ) (v : V) (m : Dict V) → Distinct m → Distinct (emplace k v m)
  unfolding emplace
  emplace-Distinct k v m h = ground arith

  pub lookup-replace-none :
      (k j : List ℕ) (v : V) (m : Dict V) → lookup j m ≡ none → lookup j (replace k v m) ≡ none
  unfolding replace lookup
  lookup-replace-none k j v [] h = refl
  lookup-replace-none k j v ((i, u) ∷ m) h = ground (arith, lookup-replace-none k j v m)

  pub replace-Distinct : (k : List ℕ) (v : V) (m : Dict V) → Distinct m → Distinct (replace k v m)
  unfolding replace
  replace-Distinct k v [] h = tt
  replace-Distinct k v ((i, u) ∷ m) h =
      ground (arith, replace-Distinct k v m, lookup-replace-none k i v m)

module _ {V : Type 0} (P : List ℕ × V → Type 0) where
  pub emplace-All : (k : List ℕ) (v : V) (m : Dict V) → P (k, v) → All P m → All P (emplace k v m)
  unfolding emplace
  emplace-All k v m p h = elim (Bool-cases (is_some (lookup k m))) [
    | inl there ↦ rw there h
    | inr fresh ↦ rw fresh (p, h)
  ]

  pub replace-All : (k : List ℕ) (v : V) (m : Dict V) → P (k, v) → All P m → All P (replace k v m)
  unfolding replace
  replace-All k v [] new h = tt
  replace-All k v ((j, w) ∷ m) new (p, h) = elim (Bool-cases (text_eq j k)) [
    | inl same ↦ rw same (subst (λ i. P (i, v)) (sym ((text_eq_iff j k).0 same)) new, h)
    | inr other ↦ rw other (p, replace-All k v m new h)
  ]

  pub lookup-All : (k : List ℕ) (v : V) (m : Dict V) → lookup k m ≡ some v → All P m → P (k, v)
  unfolding lookup
  lookup-All k v [] e h = absurd (ground arith)
  lookup-All k v ((j, w) ∷ m) e (p, h) = elim (Bool-cases (text_eq j k)) [
    | inl same ↦ subst₂ (λ a b. P (a, b)) ((text_eq_iff j k).0 same) (ground arith) p
    | inr other ↦ lookup-All k v m (rw other at e) h
  ]
