-- ===== src/Prelude/Maps.antt =====
-- Storage maps as functions. A `ValueQuery` map is total; an optional one is a function into
-- `Option`.
use Prim.Native.Nat.{ℕ}
use mathlib.Core.Bool.{Bool, true, false, ◌&&◌}
use mathlib.Core.Option.{Option, none, some}
use deep_brain_chain.Prelude.Tests.{◌==◌, if◌then◌else◌}

abbrev pub update {ℓ} : {A : Type ℓ} → (ℕ → A) → ℕ → A → ℕ → A
update f k v j = if j == k then v else f j

abbrev pub insert {ℓ} : {A : Type ℓ} → (ℕ → Option A) → ℕ → A → ℕ → Option A
insert f k v = update f k (some v)

-- A double map.
abbrev pub update₂ {ℓ} : {A : Type ℓ} → (ℕ → ℕ → A) → ℕ → ℕ → A → ℕ → ℕ → A
update₂ f k₁ k₂ v i j = if i == k₁ && j == k₂ then v else f i j

-- `contains_key`
abbrev pub is_some {ℓ} : {A : Type ℓ} → Option A → Bool
is_some none = false
is_some (some a) = true

-- `StorageMap::remove`
abbrev pub remove {ℓ} : {A : Type ℓ} → (ℕ → Option A) → ℕ → ℕ → Option A
remove f k = update f k none
