-- ===== src/Prelude/Names.antt =====
-- Lists of names without repetition, as the loops over an `unordered_set` of seen names check it.
use Prim.Native.String.{String}
use mathlib.Core.Path.{◌≡◌, refl, sym}
use mathlib.Core.Logic.{◌≢◌, ◌↔◌, ◌⊎◌}
use mathlib.Core.Bool.{true, false}
use mathlib.Core.List.{List, [], ◌∷◌}
use native.Mathlib.Omega.{arith}
use text.Mathlib.TextEquality.{eq_iff}
use mini_gateway.Prelude.Lists.{All}
use mathlib.Core.Option.{none, some}
use text.Mathlib.TextPositions.{eq_refl}
use mini_gateway.Prelude.Maps.{Table, member, lookup, insert, emplace, lookup-insert}

-- `k` is none of the names.
abbrev pub Absent : String → List String → Type 0
Absent k xs = All (λ x. x ≢ k) xs

abbrev pub Distinct : List String → Type 0
Distinct [] = Unit
Distinct (x ∷ xs) = Absent x xs × Distinct xs

pub member-Absent : (k : String) (xs : List String) → (member k xs ≡ false) ↔ Absent k xs
unfolding member
member-Absent k [] = (λ _. tt, λ _. ground arith)
member-Absent k (x ∷ xs) = (
  λ h. (ground (arith, eq_iff x k), (member-Absent k xs).0 (ground arith)),
  λ h. ground (arith, eq_iff x k, (member-Absent k xs).1 h.1),
)

pub member-cons :
    (k x : String) (xs : List String) → member k (x ∷ xs) ≡ true → (x ≡ k) ⊎ (member k xs ≡ true)
unfolding member
member-cons k x xs h = ground (arith, eq_iff x k)

-- Every name of `xs` is new to `seen`.
abbrev pub Fresh : List String → List String → Type 0
Fresh seen xs = All (λ x. Absent x seen) xs

pub Fresh-cons :
    (k : String) (seen xs : List String) → Absent k xs → Fresh seen xs → Fresh (k ∷ seen) xs
Fresh-cons k seen [] a f = tt
Fresh-cons k seen (x ∷ xs) a f = ((λ e. a.0 (sym e), f.0), Fresh-cons k seen xs a.1 f.1)

pub Fresh-uncons :
    (k : String) (seen xs : List String) → Fresh (k ∷ seen) xs → Absent k xs × Fresh seen xs
Fresh-uncons k seen [] f = (tt, tt)
Fresh-uncons k seen (x ∷ xs) f =
    let (a, g) = Fresh-uncons k seen xs f.1 in ((λ e. f.0.0 (sym e), a), (f.0.1, g))

pub Fresh-nil : (xs : List String) → Fresh [] xs
Fresh-nil [] = tt
Fresh-nil (x ∷ xs) = (tt, Fresh-nil xs)

module _ {ℓ} {V : Type ℓ} where
  -- None of the names is a key of the table.
  abbrev pub Unused : Table V → List String → Type ℓ
  Unused t names = All (λ k. lookup k t ≡ none) names

  pub Unused-insert :
      (k : String) (v : V) (t : Table V) (names : List String)
      → Absent k names
      → Unused t names
      → Unused (insert k v t) names
  Unused-insert k v t [] a u = tt
  Unused-insert k v t (x ∷ xs) a u =
      (ground (arith, lookup-insert k x v t, eq_iff k x, a.0, u.0), Unused-insert k v t xs a.1 u.1)

  pub Unused-uninsert :
      (k : String) (v : V) (t : Table V) (names : List String)
      → Unused (insert k v t) names
      → Absent k names × Unused t names
  Unused-uninsert k v t [] u = (tt, tt)
  Unused-uninsert k v t (x ∷ xs) u =
      let (absent, unused) = Unused-uninsert k v t xs u.1 in
      let first : x ≢ k = ground (arith, lookup-insert k x v t, eq_iff k x, u.0) in
      ((first, absent), (ground (arith, lookup-insert k x v t, eq_iff k x, first, u.0), unused))

  -- An entry stays when a new key is inserted.
  pub lookup-insert_keeps :
      (k j : String) (v w : V) (t : Table V)
      → lookup k t ≡ none
      → lookup j t ≡ some w
      → lookup j (insert k v t) ≡ some w
  lookup-insert_keeps k j v w t unused found =
      ground (arith, lookup-insert k j v t, eq_iff k j, unused, found)

  pub lookup-insert_self : (k : String) (v : V) (t : Table V) → lookup k (insert k v t) ≡ some v
  lookup-insert_self k v t = simp (lookup-insert, eq_refl)

pub Unused-nil {ℓ} : (V : Type ℓ) (names : List String) → Unused {V = V} [] names
unfolding lookup
Unused-nil V [] = tt
Unused-nil V (x ∷ xs) = (refl, Unused-nil V xs)

-- What a table holds after a new key is added: that entry, or what was there.
pub lookup-emplace :
    {V : Type 0} (k j : String) (v w : V) (t : Table V)
    → lookup k t ≡ none
    → lookup j (emplace k v t) ≡ some w
    → ((k ≡ j) × (v ≡ w)) ⊎ (lookup j t ≡ some w)
unfolding emplace
lookup-emplace k j v w t unused found = ground (arith, lookup-insert k j v t, eq_iff k j, unused)
