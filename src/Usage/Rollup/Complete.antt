-- ===== src/Usage/Rollup/Complete.antt =====
-- The hours that lie in the window of a roll-up as a whole.
use open_civic.Common.{
  ℕ, ◌+◌, ◌-◌, ◌*◌, ◌/◌, ◌≤◌, ◌≡◌, refl, sym, ap, ◌∙◌, Bool, true, some, List, [], ◌∷◌, any, filter,
  leb, if◌then◌else◌, Bool-cases, inl, inr, arith, get_or,
}
use open_civic.Common.Order.{count}
use open_civic.Usage.Rollup.{
  UsageEvent, Bucket, Rollups, same_bucket, bucket_of, counts_in, bytes_in, recent, rollup_hourly,
  find_rollup,
}
use open_civic.Usage.Rollup.Upserts.{same_bucket_eq, rollup_hourly_lem}

module _ {ℓ} {A : Type ℓ} (p q : A → Bool) (within : (x : A) → p x ≡ true → q x ≡ true) where
  count-filter : (xs : List A) → count p (filter q xs) ≡ count p xs
  unfolding count
  count-filter [] = refl
  count-filter (x ∷ xs) = ground (arith, count-filter xs, within x)

  any-filter : (xs : List A) → any p (filter q xs) ≡ any p xs
  any-filter [] = refl
  any-filter (x ∷ xs) = ground (arith, any-filter xs, within x)

hour_start : (t h : ℕ) → t / 3600 ≡ h → h * 3600 ≤ t
hour_start t h e = omega (arith, e)

in_window :
    (cutoff : ℕ) (key : Bucket) (e : UsageEvent)
    → cutoff ≤ key.hour * 3600
    → same_bucket (bucket_of e) key ≡ true
    → leb cutoff e.created_at ≡ true
unfolding bucket_of
in_window cutoff key e h same =
    let at_hour =
      hour_start e.created_at key.hour (ap (λ b. b.hour) (same_bucket_eq (bucket_of e) key same)) in
    ground (arith, at_hour, h)

in_window_key :
    (cutoff : ℕ) (key : Bucket) (e : UsageEvent)
    → cutoff ≤ key.hour * 3600
    → same_bucket key (bucket_of e) ≡ true
    → leb cutoff e.created_at ≡ true
unfolding bucket_of
in_window_key cutoff key e h same =
    let at_hour =
      hour_start e.created_at key.hour
        (ap (λ b. b.hour) (sym (same_bucket_eq key (bucket_of e) same))) in
    ground (arith, at_hour, h)

bytes_in-recent :
    (key : Bucket) (cutoff : ℕ) (es : List UsageEvent)
    → cutoff ≤ key.hour * 3600
    → bytes_in key (filter (λ e. leb cutoff e.created_at) es) ≡ bytes_in key es
unfolding bytes_in
bytes_in-recent key cutoff [] h = refl
bytes_in-recent key cutoff (e ∷ es) h = elim (Bool-cases (leb cutoff e.created_at)) [
  | inl later ↦
      rw (later, bytes_in)
        (ap (λ n. (if same_bucket (bucket_of e) key then get_or e.bytes 0 else 0) + n)
          (bytes_in-recent key cutoff es h))
  | inr before ↦ elim (Bool-cases (same_bucket (bucket_of e) key)) [
    | inl same ↦ cc (in_window cutoff key e h same, before)
    | inr other ↦ rw (before, other, bytes_in) (omega (arith, bytes_in-recent key cutoff es h))
  ]
]

counts_in-recent :
    (key : Bucket) (now lookback_hours : ℕ) (events : List UsageEvent)
    → now - lookback_hours * 3600 ≤ key.hour * 3600
    → counts_in (recent now lookback_hours events) key ≡ counts_in events key
unfolding counts_in recent
counts_in-recent key now lookback_hours events h =
    let cutoff = now - lookback_hours * 3600 in
    let counted =
      count-filter (λ e. same_bucket (bucket_of e) key) (λ e. leb cutoff e.created_at)
        (λ e same. in_window cutoff key e h same) events in
    let summed = bytes_in-recent key cutoff events h in
    λ i. record { event_count = counted i; bytes_total = summed i }

-- After a roll-up the row of a dataset, a type and an hour that lies in the window as a whole has
-- the number of their events and the sum of their bytes, and where there are none it is as before.
pub rollup_hourly_complete :
    (key : Bucket) (k : ℕ) (now lookback_hours : ℕ) (events : List UsageEvent) (t : Rollups)
    → key.dataset_id ≡ some k
    → now - lookback_hours * 3600 ≤ key.hour * 3600
    → find_rollup key (rollup_hourly now lookback_hours events t).1 ≡ (
        if any (λ e. same_bucket key (bucket_of e)) events
        then some (counts_in events key)
        else find_rollup key t)
unfolding recent
rollup_hourly_complete key k now lookback_hours events t named h =
    let cutoff = now - lookback_hours * 3600 in
    rollup_hourly_lem key k now lookback_hours events t named
    ∙ ap
        (λ b.
          if b then some (counts_in (recent now lookback_hours events) key) else find_rollup key t)
        (any-filter (λ e. same_bucket key (bucket_of e)) (λ e. leb cutoff e.created_at)
          (λ e same. in_window_key cutoff key e h same) events)
    ∙ ap
        (λ c. if any (λ e. same_bucket key (bucket_of e)) events then some c else find_rollup key t)
        (counts_in-recent key now lookback_hours events h)
