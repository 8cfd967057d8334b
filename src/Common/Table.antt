-- ===== src/Common/Table.antt =====
-- A JavaScript `Map` with string keys: an association list in insertion order. `set` overwrites in
-- place and appends a new key at the end; `delete` removes the key.
use Prim.Native.Nat.{suc}
use Prim.Native.String.{String}
use mathlib.Core.Path.{◌≡◌, refl}
use mathlib.Core.Logic.{◌≢◌}
use mathlib.Core.Bool.{Bool, true, false, not}
use mathlib.Core.List.{List, [], ◌∷◌}
use mathlib.Core.Option.{Option, none, some}
use native.Mathlib.Omega.{arith}
use text.Mathlib.Text.{◌==◌ as str_eq}
use text.Mathlib.TextEquality.{eq_iff}
use limitmark.Common.Tests.{if◌then◌else◌}
use limitmark.Common.Lists.{length, filter}

abbrev pub Table : Type 0 → Type 0
Table V = List (String × V)

module _ {V : Type 0} where
  abbrev pub get : String → Table V → Option V
  get k [] = none
  get k ((j, v) ∷ m) = let rest = get k m in if str_eq j k then some v else rest

  abbrev pub has : String → Table V → Bool
  has k [] = false
  has k ((j, v) ∷ m) = let rest = has k m in if str_eq j k then true else rest

  abbrev pub set : String → V → Table V → Table V
  set k v [] = (k, v) ∷ []
  set k v ((j, w) ∷ m) = let rest = set k v m in if str_eq j k then (k, v) ∷ m else (j, w) ∷ rest

  abbrev pub delete : String → Table V → Table V
  delete k m = filter (λ e. not (str_eq e.0 k)) m

  -- Each key stands once.
  abbrev pub IsTable : Table V → Type 0
  IsTable [] = Unit
  IsTable ((k, v) ∷ m) = (has k m ≡ false) × IsTable m

  pub has_iff_get :
      (k : String) (m : Table V) → has k m ≡ (elim (get k m) [ none ↦ false | some _ ↦ true ])
  has_iff_get k [] = refl
  has_iff_get k ((j, v) ∷ m) = ground (arith, has_iff_get k m)

  pub get-set :
      (k j : String) (v : V) (m : Table V)
      → get j (set k v m) ≡ (if str_eq k j then some v else get j m)
  get-set k j v [] = refl
  get-set k j v ((i, w) ∷ m) = ground (arith, eq_iff k j, eq_iff i k, eq_iff i j, get-set k j v m)

  pub has-set :
      (k j : String) (v : V) (m : Table V)
      → has j (set k v m) ≡ (if str_eq k j then true else has j m)
  has-set k j v [] = refl
  has-set k j v ((i, w) ∷ m) = ground (arith, eq_iff k j, eq_iff i k, eq_iff i j, has-set k j v m)

  pub length-set :
      (k : String) (v : V) (m : Table V)
      → length (set k v m) ≡ (if has k m then length m else suc (length m))
  length-set k v [] = refl
  length-set k v ((i, w) ∷ m) = ground (arith, length-set k v m)

  pub set-IsTable : (k : String) (v : V) (m : Table V) → IsTable m → IsTable (set k v m)
  set-IsTable k v [] h = (refl, tt)
  set-IsTable k v ((i, w) ∷ m) h =
      ground (arith, set-IsTable k v m h.1, has-set k i v m, eq_iff i k, eq_iff k i)

  pub get-set_self : (k : String) (v : V) (m : Table V) → get k (set k v m) ≡ some v
  get-set_self k v m = ground (arith, get-set k k v m, eq_iff k k)

  pub get-set_ne : (k j : String) (v : V) (m : Table V) → k ≢ j → get j (set k v m) ≡ get j m
  get-set_ne k j v m h = ground (arith, get-set k j v m, eq_iff k j)

  pub get-delete_ne : (k j : String) (m : Table V) → k ≢ j → get j (delete k m) ≡ get j m
  get-delete_ne k j [] h = refl
  get-delete_ne k j ((i, w) ∷ m) h = ground (arith, get-delete_ne k j m h, eq_iff i k, eq_iff i j)

  pub get-delete_self : (k : String) (m : Table V) → get k (delete k m) ≡ none
  get-delete_self k [] = refl
  get-delete_self k ((i, w) ∷ m) = ground (arith, get-delete_self k m)

  module _ (p : String × V → Bool) where
    pub has-filter : (k : String) (m : Table V) → has k m ≡ false → has k (filter p m) ≡ false
    has-filter k [] h = refl
    has-filter k ((i, w) ∷ m) h = ground (arith, has-filter k m)

    pub filter-IsTable : (m : Table V) → IsTable m → IsTable (filter p m)
    filter-IsTable [] h = tt
    filter-IsTable ((i, w) ∷ m) h = ground (arith, filter-IsTable m h.1, has-filter i m h.0)

    -- An entry survives a filter exactly when it passes the test.
    pub get-filter :
        (k : String) (v : V) (m : Table V)
        → IsTable m
        → get k m ≡ some v
        → get k (filter p m) ≡ (if p (k, v) then some v else none)
    get-filter k v [] t h = ground arith
    get-filter k v ((i, w) ∷ m) t h =
        ground (arith, eq_iff i k, get-filter k v m t.1, has-filter k m, has_iff_get k (filter p m))

    pub get-filter_none : (k : String) (m : Table V) → get k m ≡ none → get k (filter p m) ≡ none
    get-filter_none k [] h = refl
    get-filter_none k ((i, w) ∷ m) h = ground (arith, get-filter_none k m)
