-- ===== src/Service/Sorting.antt =====
-- Python's `sorted` on texts and on items with keys: a stable sort.
use openstack_osa_office_clu.Prelude.{Bool, true, false, List, [], ◌∷◌, if◌then◌else◌, String, ◌==◌}
use openstack_osa_office_clu.Prelude.Text.{Text, codes}
pub use openstack_osa_office_clu.Prelude.{leb}

unfoldable pub insert_in {ℓ} : {A : Type ℓ} → (A → A → Bool) → A → List A → List A
insert_in le x [] = x ∷ []
insert_in le x (y ∷ ys) = if le x y then x ∷ y ∷ ys else y ∷ insert_in le x ys

unfoldable pub sort {ℓ} : {A : Type ℓ} → (A → A → Bool) → List A → List A
unfolding insert_in
sort le [] = []
sort le (x ∷ xs) = insert_in le x (sort le xs)

-- Texts compare by their code points.
abbrev pub codes_le : Text → Text → Bool
codes_le [] t = true
codes_le (c ∷ s) [] = false
codes_le (c ∷ s) (d ∷ t) = if c == d then codes_le s t else leb c d

abbrev pub text_le : String → String → Bool
text_le s t = codes_le (codes s) (codes t)
