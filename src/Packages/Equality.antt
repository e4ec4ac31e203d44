-- ===== src/Packages/Equality.antt =====
-- `==` of Python on the contents of assignments (backend/app/services/work_package_service.py).
use tasktrack.Prelude.{
  String, ◌≡◌, refl, Bool, true, false, not, ◌&&◌, Option, none, some, List, [], ◌∷◌, str_eq, arith,
  if◌then◌else◌,
}
use text.Mathlib.TextPositions.{eq_refl}
use tasktrack.Model.{PackageCriterion, PackageInput, PinnedBasis, PackageContent}

abbrev opt_eq : Option String → Option String → Bool
opt_eq none none = true
opt_eq (some a) (some b) = str_eq a b
opt_eq _ _ = false

list_eq : {A : Type 0} → (A → A → Bool) → List A → List A → Bool
list_eq eq [] [] = true
list_eq eq (x ∷ xs) (y ∷ ys) = eq x y && list_eq eq xs ys
list_eq eq _ _ = false

criterion_eq : PackageCriterion → PackageCriterion → Bool
criterion_eq a b =
    str_eq a.key b.key
    && (str_eq a.text b.text && (if a.required then b.required else not b.required))

input_eq : PackageInput → PackageInput → Bool
input_eq a b =
    str_eq a.kind b.kind
    && (str_eq a.ref b.ref && (opt_eq a.version b.version && opt_eq a.note b.note))

pin_eq : PinnedBasis → PinnedBasis → Bool
pin_eq a b =
    str_eq a.provider b.provider
    && (str_eq a.namespace b.namespace
        && (str_eq a.type b.type
            && (str_eq a.id b.id
                && (str_eq a.revision b.revision
                    && (str_eq a.role b.role
                        && (opt_eq a.meaning b.meaning && str_eq a.freshness b.freshness))))))

unfoldable pub content_eq : PackageContent → PackageContent → Bool
unfolding list_eq criterion_eq input_eq pin_eq
content_eq a b =
    opt_eq a.goal b.goal
    && (opt_eq a.expected_result b.expected_result
        && (list_eq criterion_eq a.criteria b.criteria
            && (list_eq input_eq a.inputs b.inputs
                && (list_eq str_eq a.constraints b.constraints
                    && (opt_eq a.specialization b.specialization
                        && list_eq pin_eq a.bases b.bases)))))

opt_eq_refl : (a : Option String) → opt_eq a a ≡ true
opt_eq_refl none = refl
opt_eq_refl (some a) = eq_refl a

list_eq_refl :
    {A : Type 0} (eq : A → A → Bool) (l : List A)
    → ((a : A) → eq a a ≡ true)
    → list_eq eq l l ≡ true
unfolding list_eq
list_eq_refl eq [] same = refl
list_eq_refl eq (x ∷ xs) same = ground (arith, same x, list_eq_refl eq xs same)

criterion_eq_refl : (c : PackageCriterion) → criterion_eq c c ≡ true
unfolding criterion_eq
criterion_eq_refl c = ground (arith, eq_refl c.key, eq_refl c.text)

input_eq_refl : (c : PackageInput) → input_eq c c ≡ true
unfolding input_eq
input_eq_refl c =
    ground (arith, eq_refl c.kind, eq_refl c.ref, opt_eq_refl c.version, opt_eq_refl c.note)

pin_eq_refl : (p : PinnedBasis) → pin_eq p p ≡ true
unfolding pin_eq
pin_eq_refl p = ground (
  arith,
  eq_refl p.provider,
  eq_refl p.namespace,
  eq_refl p.type,
  eq_refl p.id,
  eq_refl p.revision,
  eq_refl p.role,
  opt_eq_refl p.meaning,
  eq_refl p.freshness,
)

pub content_eq_refl : (c : PackageContent) → content_eq c c ≡ true
unfolding content_eq
content_eq_refl c = ground (
  arith,
  opt_eq_refl c.goal,
  opt_eq_refl c.expected_result,
  list_eq_refl criterion_eq c.criteria criterion_eq_refl,
  list_eq_refl input_eq c.inputs input_eq_refl,
  list_eq_refl str_eq c.constraints eq_refl,
  opt_eq_refl c.specialization,
  list_eq_refl pin_eq c.bases pin_eq_refl,
)
