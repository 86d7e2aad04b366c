-- ===== src/GoText/Maps.antt =====
-- A Go map with string keys, as the list of its pairs. A range over it and its length are in the order
-- of the list where the source sorts the keys.
use srvgov_cli.Prelude.{◌≡◌, refl, Option, none, some, List, [], ◌∷◌, arith, if◌then◌else◌}
use srvgov_cli.GoText.Search.{Text, equal, equal_iff}

abbrev pub Map {ℓ} : Type ℓ → Type ℓ
Map A = List (Text × A)

module _ {ℓ} {A : Type ℓ} where
  -- `value, ok := m[key]`
  unfoldable pub get_key : Text → Map A → Option A
  unfolding equal
  get_key key [] = none
  get_key key ((k, v) ∷ m) = let rest = get_key key m in if equal k key then some v else rest

  -- m[key] = value
  unfoldable pub put_key : Text → A → Map A → Map A
  unfolding equal
  put_key key value [] = (key, value) ∷ []
  put_key key value ((k, v) ∷ m) =
      let rest = put_key key value m in if equal k key then (key, value) ∷ m else (k, v) ∷ rest

  -- delete(m, key)
  unfoldable pub delete_key : Text → Map A → Map A
  unfolding equal
  delete_key key [] = []
  delete_key key ((k, v) ∷ m) =
      let rest = delete_key key m in if equal k key then rest else (k, v) ∷ rest

  pub get_key-put_key :
      (j k : Text) (v : A) (m : Map A)
      → get_key j (put_key k v m) ≡ (if equal k j then some v else get_key j m)
  unfolding get_key put_key
  get_key-put_key j k v [] = refl
  get_key-put_key j k v ((i, w) ∷ m) =
      ground (arith, equal_iff k j, equal_iff i k, equal_iff i j, get_key-put_key j k v m)

  pub get_key-delete_key :
      (j k : Text) (m : Map A)
      → get_key j (delete_key k m) ≡ (if equal k j then none else get_key j m)
  unfolding get_key delete_key
  get_key-delete_key j k [] = ground arith
  get_key-delete_key j k ((i, w) ∷ m) =
      ground (arith, equal_iff k j, equal_iff i k, equal_iff i j, get_key-delete_key j k m)
