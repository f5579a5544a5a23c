-- ===== src/Common/Memory.antt =====
-- Memory as a function of its index, and the loops that write a run of cells.
use tuple_os.Common.Tests.{ltb, leb, ◌==◌, if◌then◌else◌}
use Prim.Native.Nat.{ℕ, zero, suc, ◌+◌}
use mathlib.Core.Path.{◌≡◌}
use mathlib.Core.Bool.{◌&&◌}
use native.Mathlib.Omega.{arith}

abbrev pub update {ℓ} : {A : Type ℓ} → (ℕ → A) → ℕ → A → ℕ → A
update f i v j = if i == j then v else f j

-- `for (; n > 0; n--, i++) m[i] = v i;`
unfoldable pub fill_with : ℕ → ℕ → (ℕ → ℕ) → (ℕ → ℕ) → ℕ → ℕ
fill_with zero i v m = m
fill_with (suc n) i v m = fill_with n (i + 1) v (update m i (v i))

pub fill_with_lem :
    (n i : ℕ) (v m : ℕ → ℕ) (j : ℕ)
    → fill_with n i v m j ≡ (if leb i j && ltb j (i + n) then v j else m j)
unfolding fill_with
fill_with_lem zero i v m j = ground arith
fill_with_lem (suc n) i v m j = ground (arith, fill_with_lem n (i + 1) v (update m i (v i)) j)
