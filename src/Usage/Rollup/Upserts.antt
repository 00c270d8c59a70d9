-- ===== src/Usage/Rollup/Upserts.antt =====
-- The table of hours after a roll-up.
use text.Mathlib.Text.{◌==◌ as str_eq}
use text.Mathlib.TextEquality.{eq_iff}
use text.Mathlib.TextPositions.{eq_refl}
use open_civic.Common.{
  ℕ, ◌≡◌, refl, sym, ap, ◌∙◌, subst, Bool, true, false, ◌&&◌, ◌||◌, Option, none, some, List, [],
  ◌∷◌, any, ◌==◌, ==_iff, ==_refl, if◌then◌else◌, Bool-cases, Option-cases, inl, inr, arith,
}
use open_civic.Usage.Rollup.{
  UsageEvent, Bucket, Counts, Rollups, same_id, same_bucket, bucket_of, groups, counts_in,
  conflicts, upsert, upsert_all, recent, rollup_hourly, find_rollup,
}

same_id_eq : (a b : Option ℕ) → same_id a b ≡ true → a ≡ b
unfolding same_id
same_id_eq none none h = refl
same_id_eq none (some k) h = cc h
same_id_eq (some j) none h = cc h
same_id_eq (some j) (some k) h = ap some ((==_iff j k).0 h)

same_id_refl : (a : Option ℕ) → same_id a a ≡ true
unfolding same_id
same_id_refl none = refl
same_id_refl (some k) = ==_refl k

and_three : (a b c : Bool) → (a && b && c) ≡ true → (a ≡ true) × (b ≡ true) × (c ≡ true)
and_three a b c h = ground (arith, h)

bucket_eq :
    (a b : Bucket)
    → a.dataset_id ≡ b.dataset_id
    → a.event_type ≡ b.event_type
    → a.hour ≡ b.hour
    → a ≡ b
bucket_eq a b p q r = λ i. record { dataset_id = p i; event_type = q i; hour = r i }

pub same_bucket_eq : (a b : Bucket) → same_bucket a b ≡ true → a ≡ b
unfolding same_bucket
same_bucket_eq a b h =
    let (d, t, n) =
      and_three (same_id a.dataset_id b.dataset_id) (str_eq a.event_type b.event_type)
        (a.hour == b.hour) h in
    bucket_eq a b (same_id_eq a.dataset_id b.dataset_id d) ((eq_iff a.event_type b.event_type).0 t)
      ((==_iff a.hour b.hour).0 n)

same_bucket_refl : (a : Bucket) → same_bucket a a ≡ true
unfolding same_bucket
same_bucket_refl a = rw (same_id_refl a.dataset_id, eq_refl a.event_type, ==_refl a.hour) refl

if_some :
    (o : Option ℕ) (k : ℕ) (b : Bool) → o ≡ some k → (elim o [ none ↦ false | some j ↦ b ]) ≡ b
if_some none k b h = cc h
if_some (some j) k b h = refl

conflicts-some : (k : ℕ) (a b : Bucket) → a.dataset_id ≡ some k → conflicts a b ≡ same_bucket a b
unfolding conflicts
conflicts-some k a b e = if_some a.dataset_id k (same_bucket a b) e

conflicts_same : (a b : Bucket) → conflicts a b ≡ true → same_bucket a b ≡ true
unfolding conflicts
conflicts_same a b h = elim (Option-cases a.dataset_id) [
  | inl missing ↦ cc (rw (missing, conflicts) at h)
  | inr (k, there) ↦ sym (if_some a.dataset_id k (same_bucket a b) there) ∙ h
]

-- Two buckets that are both the key are the same.
both_same :
    (key a b : Bucket)
    → same_bucket key a ≡ true
    → same_bucket key b ≡ true
    → same_bucket b a ≡ true
both_same key a b h g = subst (λ x. same_bucket x a ≡ true) (same_bucket_eq key b g) h

overwrite :
    (p : Bool) (x o r : Option Counts)
    → (if p then x else r) ≡ (if p then x else if p then o else r)
overwrite true x o r = refl
overwrite false x o r = refl

reorder :
    (p q : Bool) (x o r y : Option Counts)
    → (p ≡ true → q ≡ true → ⊥)
    → y ≡ (if q then x else r)
    → (if p then o else y) ≡ (if q then x else if p then o else r)
reorder true true x o r y h e = absurd (h refl refl)
reorder true false x o r y h e = refl
reorder false q x o r y h e = e

module _ (key : Bucket) (k : ℕ) (named : key.dataset_id ≡ some k) where
  -- Where no conflict is seen, the key is not both.
  no_conflict :
      (a b : Bucket) → same_bucket key a ≡ true → same_bucket key b ≡ true → conflicts b a ≡ true
  no_conflict a b h g =
      conflicts-some k b a (subst (λ x. x.dataset_id ≡ some k) (same_bucket_eq key b g) named)
      ∙ both_same key a b h g

  find-upsert :
      (b : Bucket) (c : Counts) (t : Rollups)
      → find_rollup key (upsert b c t) ≡ (if same_bucket key b then some c else find_rollup key t)
  unfolding find_rollup upsert
  find-upsert b c [] = refl
  find-upsert b c ((a, old) ∷ t) = elim (Bool-cases (conflicts b a)) [
    | inl hit ↦
        let same = same_bucket_eq b a (conflicts_same b a hit) in
        let s = same_bucket key a in
        rw (hit, find_rollup, upsert)
          (subst
            (λ x.
              (if s then some c else find_rollup key t)
              ≡ (if same_bucket key x then some c else if s then some old else find_rollup key t))
            (sym same) (overwrite s (some c) (some old) (find_rollup key t)))
    | inr miss ↦
        rw (miss, find_rollup, upsert)
          (reorder (same_bucket key a) (same_bucket key b) (some c) (some old) (find_rollup key t)
            (find_rollup key (upsert b c t)) (λ h g. cc (no_conflict a b h g, miss))
            (find-upsert b c t))
  ]

  find-upsert_all :
      (f : Bucket → Counts) (bs : List Bucket) (t : Rollups)
      → find_rollup key (upsert_all f bs t)
        ≡ (if any (same_bucket key) bs then some (f key) else find_rollup key t)
  unfolding upsert_all
  find-upsert_all f [] t = refl
  find-upsert_all f (b ∷ bs) t =
      find-upsert_all f bs (upsert b (f b) t)
      ∙ ap (λ x. if any (same_bucket key) bs then some (f key) else x) (find-upsert b (f b) t)
      ∙ merged (any (same_bucket key) bs) (same_bucket key b) (find_rollup key t)
          (λ h. ap (λ x. some (f x)) (same_bucket_eq key b h))
    where
      merged :
          (p q : Bool) (r : Option Counts)
          → (q ≡ true → some (f key) ≡ some (f b))
          → (if p then some (f key) else if q then some (f b) else r)
            ≡ (if q || p then some (f key) else r)
      merged true true r h = refl
      merged true false r h = refl
      merged false true r h = sym (h refl)
      merged false false r h = refl

any_equal :
    (key x : Bucket) (bs : List Bucket)
    → same_bucket key x ≡ true
    → any (λ b. same_bucket b x) bs ≡ true
    → any (same_bucket key) bs ≡ true
any_equal key x [] same h = cc h
any_equal key x (b ∷ bs) same h = elim (Bool-cases (same_bucket b x)) [
  | inl here ↦
      let is_b : same_bucket key b ≡ true =
        subst (λ y. same_bucket key y ≡ true) (sym (same_bucket_eq b x here)) same in
      rw is_b refl
  | inr not_here ↦ let later = any_equal key x bs same (rw not_here at h) in ground (arith, later)
]

-- The groups are the buckets of the events.
any-groups :
    (key : Bucket) (es : List UsageEvent)
    → any (same_bucket key) (groups es) ≡ any (λ e. same_bucket key (bucket_of e)) es
unfolding groups
any-groups key [] = refl
any-groups key (e ∷ es) = elim (Bool-cases (any (λ b. same_bucket b (bucket_of e)) (groups es))) [
  | inr new ↦ rw (new, groups) (ap (λ b. same_bucket key (bucket_of e) || b) (any-groups key es))
  | inl known ↦
      rw (known, groups)
        (elim (Bool-cases (same_bucket key (bucket_of e))) [
          | inl same ↦ rw same (any_equal key (bucket_of e) (groups es) same known)
          | inr other ↦ rw other (any-groups key es)
        ])
]

pub rollup_hourly_lem :
    (key : Bucket) (k : ℕ) (now lookback_hours : ℕ) (events : List UsageEvent) (t : Rollups)
    → key.dataset_id ≡ some k
    → find_rollup key (rollup_hourly now lookback_hours events t).1 ≡ (
        if any (λ e. same_bucket key (bucket_of e)) (recent now lookback_hours events)
        then some (counts_in (recent now lookback_hours events) key)
        else find_rollup key t)
unfolding rollup_hourly
rollup_hourly_lem key k now lookback_hours events t named =
    let es = recent now lookback_hours events in
    find-upsert_all key k named (counts_in es) (groups es) t
    ∙ ap (λ b. if b then some (counts_in es key) else find_rollup key t) (any-groups key es)
