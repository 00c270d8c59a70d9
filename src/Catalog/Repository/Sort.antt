-- ===== src/Catalog/Repository/Sort.antt =====
-- `_resolve_sort` of backend/app/repositories/dataset_repository.py, as a comparison of two rows.
use Prim.Native.Nat.{Ordering, compare}
use Prim.Native.Char.{code}
use Prim.Native.String.{◌∷◌ as ◌:>◌}
use text.Mathlib.Text.{◌==◌ as str_eq}
use open_civic.Common.{ℕ, String, Bool, true, false, Option, none, some, ◌==◌, if◌then◌else◌}
use open_civic.Common.Text.{is_empty}
use open_civic.Catalog.Model.{Dataset}

unfoldable pub not_after : Ordering → Bool
not_after Ordering.gt = false
not_after _ = true

unfoldable pub lex : Ordering → Ordering → Ordering
lex Ordering.eq o = o
lex o _ = o

-- Orders with the nulls last.
asc : Option ℕ → Option ℕ → Ordering
asc none none = Ordering.eq
asc none (some b) = Ordering.gt
asc (some a) none = Ordering.lt
asc (some a) (some b) = compare a b

desc : Option ℕ → Option ℕ → Ordering
desc none none = Ordering.eq
desc none (some b) = Ordering.gt
desc (some a) none = Ordering.lt
desc (some a) (some b) = compare b a

abbrev pub Row : Type 0
Row = ℕ × Dataset

starts_with_dash : String → Bool
starts_with_dash String.[] = false
starts_with_dash (c :> s) = code c == 45

-- `sort[1:] if descending else sort`
without_dash : String → String
without_dash String.[] = ""
without_dash (c :> s) = if code c == 45 then s else c :> s

by_default : Row → Row → Ordering
unfolding desc lex
by_default (i, x) (j, y) =
    lex (desc x.published_at y.published_at) (lex (compare y.created_at x.created_at) (compare j i))

-- `_resolve_sort`: the comparison of two rows.
unfoldable pub resolve_sort : (String → String → Ordering) → Option String → Row → Row → Ordering
unfolding by_default asc desc lex starts_with_dash without_dash
resolve_sort title_order none x y = by_default x y
resolve_sort title_order (some sort) (i, x) (j, y) =
    let down = starts_with_dash sort in
    let field = without_dash sort in
    if is_empty sort
    then by_default (i, x) (j, y)
    else if str_eq field "title"
    then lex (if down then title_order y.title x.title else title_order x.title y.title)
        (compare j i)
    else if str_eq field "created_at"
    then lex (if down then compare y.created_at x.created_at else compare x.created_at y.created_at)
        (compare j i)
    else if str_eq field "published_at"
    then lex
        (if down then desc x.published_at y.published_at else asc x.published_at y.published_at)
        (compare j i)
    else if str_eq field "quality_score"
    then lex
        (if down then desc x.quality_score y.quality_score else asc x.quality_score y.quality_score)
        (compare j i)
    else by_default (i, x) (j, y)
