-- ===== src/Packages/Bases.antt =====
-- The bases of a task as an issued assignment pins them: `pinned_bases` and `_bases` of
-- backend/app/services/portfolio_service.py, `identity` of external_service.py.
use Prim.Native.Nat.{Ordering}
use Prim.Native.String.{compare, then as or_then}
use tasktrack.Prelude.{
  ℕ, Bool, true, false, Option, List, [], ◌∷◌, ◌==◌, first, select, if◌then◌else◌,
}
use tasktrack.Model.{ExternalProvider, ExternalObject, TaskBasis, PinnedBasis, Tables}
use tasktrack.Query.{Query, attribute_error, select_from, or_raise, ◌>>=◌}
use tasktrack.Query

unfoldable pub find_object : ℕ → Tables → Option ExternalObject
find_object id t = first (λ o. o.id == id) t.objects

unfoldable pub find_provider : ℕ → Tables → Option ExternalProvider
find_provider id t = first (λ p. p.id == id) t.providers

abbrev pinned : TaskBasis → ExternalObject → ExternalProvider → PinnedBasis
pinned b obj provider = record {
  provider = provider.key;
  namespace = obj.namespace;
  type = obj.type;
  id = obj.ext_id;
  revision = b.revision;
  role = b.role;
  meaning = b.meaning;
  freshness = b.freshness;
}

-- The loop of `pinned_bases`: a basis without its object is an attribute of `None`.
unfoldable pub pin_all : List TaskBasis → Query (List PinnedBasis)
pin_all [] = Query.pure []
pin_all (b ∷ bs) = do
  found ← select_from (find_object b.object_id)
  obj ← or_raise found attribute_error
  known ← select_from (find_provider obj.provider_id)
  provider ← or_raise known attribute_error
  rest ← pin_all bs
  Query.pure (pinned b obj provider ∷ rest)

-- The order of the tuples that `sorted` compares.
pin_order : PinnedBasis → PinnedBasis → Ordering
pin_order a b = or_then (compare a.role b.role) (
    or_then (compare a.provider b.provider) (
      or_then (compare a.namespace b.namespace)
        (or_then (compare a.type b.type) (compare a.id b.id))))

abbrev is_before : Ordering → Bool
is_before Ordering.lt = true
is_before _ = false

-- A sort that keeps the order of equal items.
inserted : PinnedBasis → List PinnedBasis → List PinnedBasis
unfolding pin_order
inserted a [] = a ∷ []
inserted a (b ∷ bs) =
    let rest = inserted a bs in if is_before (pin_order b a) then b ∷ rest else a ∷ b ∷ bs

sorted : List PinnedBasis → List PinnedBasis
unfolding inserted
sorted [] = []
sorted (b ∷ bs) = inserted b (sorted bs)

unfoldable pub bases_of : ℕ → Tables → List TaskBasis
bases_of task_id t = select (λ b. b.task_id == task_id) t.bases

unfoldable pub pinned_bases : ℕ → Query (List PinnedBasis)
unfolding sorted
pinned_bases task_id = do
  bases ← select_from (bases_of task_id)
  pins ← pin_all bases
  Query.pure (sorted pins)
