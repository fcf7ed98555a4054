-- ===== src/Prelude/Int.antt =====
-- Python's integers, where they may be negative: `negsuc n` is -(n + 1).
use Prim.Native.Nat.{ℕ, zero, suc}
use mathlib.Core.Path.{◌≡◌}
use mathlib.Core.Bool.{Bool, true, false}
use mathlib.Core.List.{◌∷◌}
use native.Mathlib.Omega.{arith}
use openstack_osa_office_clu.Prelude.Tests.{leb}
use openstack_osa_office_clu.Prelude.Text.{Text, codes, Sign, plus, minus}
use openstack_osa_office_clu.Prelude.Names.{show}

pub data ℤ : Type 0 where
  pos negsuc : ℕ → ℤ

abbrev pub of_sign : Sign × ℕ → ℤ
of_sign (plus, n) = pos n
of_sign (minus, zero) = pos 0
of_sign (minus, suc n) = negsuc n

abbrev pub suc_ℤ : ℤ → ℤ
suc_ℤ (pos n) = pos (suc n)
suc_ℤ (negsuc zero) = pos 0
suc_ℤ (negsuc (suc n)) = negsuc n

abbrev pub leb_ℤ : ℤ → ℤ → Bool
leb_ℤ (pos m) (pos n) = leb m n
leb_ℤ (pos m) (negsuc n) = false
leb_ℤ (negsuc m) (pos n) = true
leb_ℤ (negsuc m) (negsuc n) = leb n m

infix 50 ◌≤ℤ◌
abbrev pub ◌≤ℤ◌ : ℤ → ℤ → Type 0
a ≤ℤ b = leb_ℤ a b ≡ true

-- `str(n)`
abbrev pub show_ℤ : ℤ → Text
show_ℤ (pos n) = codes (show n)
show_ℤ (negsuc n) = b'-' ∷ codes (show (suc n))

pub ≤ℤ_trans : (a b c : ℤ) → a ≤ℤ b → b ≤ℤ c → a ≤ℤ c
≤ℤ_trans (pos a) (pos b) (pos c) h k = ground arith
≤ℤ_trans (pos a) (pos b) (negsuc c) h k = ground arith
≤ℤ_trans (pos a) (negsuc b) c h k = ground arith
≤ℤ_trans (negsuc a) (pos b) (pos c) h k = ground arith
≤ℤ_trans (negsuc a) (pos b) (negsuc c) h k = ground arith
≤ℤ_trans (negsuc a) (negsuc b) (pos c) h k = ground arith
≤ℤ_trans (negsuc a) (negsuc b) (negsuc c) h k = ground arith

pub ≤ℤ_refl : (a : ℤ) → a ≤ℤ a
≤ℤ_refl (pos a) = ground arith
≤ℤ_refl (negsuc a) = ground arith

pub ≤ℤ_total : (a b : ℤ) → leb_ℤ a b ≡ false → b ≤ℤ a
≤ℤ_total (pos a) (pos b) h = ground arith
≤ℤ_total (pos a) (negsuc b) h = ground arith
≤ℤ_total (negsuc a) (pos b) h = ground arith
≤ℤ_total (negsuc a) (negsuc b) h = ground arith

-- `a < b`, as an order of the successor.
pub suc_mono : (a b : ℤ) → a ≤ℤ b → suc_ℤ a ≤ℤ suc_ℤ b
suc_mono (pos a) (pos b) h = ground arith
suc_mono (pos a) (negsuc b) h = ground arith
suc_mono (negsuc zero) (pos b) h = ground arith
suc_mono (negsuc (suc a)) (pos b) h = ground arith
suc_mono (negsuc zero) (negsuc zero) h = ground arith
suc_mono (negsuc zero) (negsuc (suc b)) h = ground arith
suc_mono (negsuc (suc a)) (negsuc zero) h = ground arith
suc_mono (negsuc (suc a)) (negsuc (suc b)) h = ground arith
