-- ===== src/Notifications/Webhook/Counters.antt =====
-- What the counters of a webhook say of the deliveries before.
use open_civic.Common.{
  ℕ, ◌+◌, ◌≡◌, refl, Bool, true, false, some, List, [], ◌∷◌, ◌++◌, leb, length, All, arith,
  Bool-cases, inl, inr,
}
use open_civic.Common.Table.{Table, find, find-update_self}
use open_civic.Session.{Webhook}
use open_civic.Notifications.Webhook.{
  Reply, replied, broken, is_active, record_reply, deliver_webhook_by_id, one_failure, delivered,
}

-- A failed reply: no response, or an error status.
unfoldable pub fails : Reply → Bool
fails (broken e) = true
fails (replied status body) = leb 400 status

-- Deliveries one after another, each at its time.
unfoldable pub deliver_all : ℕ → List (ℕ × Reply) → Table Webhook → Table Webhook
deliver_all k [] t = t
deliver_all k ((now, reply) ∷ rs) t = deliver_all k rs (deliver_webhook_by_id now k reply t).1

opened :
    (now k : ℕ) (reply : Reply) (t : Table Webhook) {w : Webhook}
    → find k t ≡ some w
    → is_active w ≡ true
    → deliver_webhook_by_id now k reply t ≡ record_reply now k reply t
unfolding deliver_webhook_by_id
opened now k reply t {w = w} there on = rw (there, on, deliver_webhook_by_id)

failed_reply :
    (now k : ℕ) (reply : Reply) (t : Table Webhook) (w : Webhook)
    → find k t ≡ some w
    → fails reply ≡ true
    → find k (record_reply now k reply t).1 ≡ some (one_failure w)
unfolding record_reply fails
failed_reply now k (broken e) t w there bad = find-update_self k one_failure t there
failed_reply now k (replied status body) t w there bad =
    rw bad (find-update_self k one_failure t there)

good_reply :
    (now k : ℕ) (reply : Reply) (t : Table Webhook) (w : Webhook)
    → find k t ≡ some w
    → fails reply ≡ false
    → find k (record_reply now k reply t).1 ≡ some (delivered now w)
unfolding record_reply fails
good_reply now k (broken e) t w there good = cc
good_reply now k (replied status body) t w there good =
    rw good (find-update_self k (delivered now) t there)

-- `n` failures more.
more : ℕ → Webhook → Webhook
more n w = record w { failure_count = w.failure_count + n }

run_of_failures :
    (k : ℕ) (rs : List (ℕ × Reply)) (t : Table Webhook) (w : Webhook)
    → find k t ≡ some w
    → is_active w ≡ true
    → All (λ r. fails r.1 ≡ true) rs
    → (v : Webhook) × (find k (deliver_all k rs t) ≡ some v)
      × (v.failure_count ≡ w.failure_count + length rs)
      × (v.last_delivery_at ≡ w.last_delivery_at)
unfolding deliver_all one_failure is_active
run_of_failures k [] t w there on h = (w, there, omega arith, refl)
run_of_failures k ((now, reply) ∷ rs) t w there on h =
    let t' = (deliver_webhook_by_id now k reply t).1 in
    let after : find k t' ≡ some (one_failure w) =
      rw (opened now k reply t there on) (failed_reply now k reply t w there h.0) in
    let (v, e, n, last) = run_of_failures k rs t' (one_failure w) after on h.1 in
    (v, e, omega (arith, n), last)

-- Any deliveries leave an active webhook there and active.
kept :
    (k : ℕ) (rs : List (ℕ × Reply)) (t : Table Webhook) (w : Webhook)
    → find k t ≡ some w
    → is_active w ≡ true
    → (v : Webhook) × (find k (deliver_all k rs t) ≡ some v) × (is_active v ≡ true)
unfolding deliver_all one_failure delivered is_active
kept k [] t w there on = (w, there, on)
kept k ((now, reply) ∷ rs) t w there on =
    let t' = (deliver_webhook_by_id now k reply t).1 in
    elim (Bool-cases (fails reply)) [
      | inl bad ↦
          kept k rs t' (one_failure w)
            (rw (opened now k reply t there on) (failed_reply now k reply t w there bad)) on
      | inr good ↦
          kept k rs t' (delivered now w)
            (rw (opened now k reply t there on) (good_reply now k reply t w there good)) on
    ]

deliver_all-append :
    (k : ℕ) (xs ys : List (ℕ × Reply)) (t : Table Webhook)
    → deliver_all k (xs ++ ys) t ≡ deliver_all k ys (deliver_all k xs t)
unfolding deliver_all
deliver_all-append k [] ys t = refl
deliver_all-append k (x ∷ xs) ys t =
    deliver_all-append k xs ys (deliver_webhook_by_id x.0 k x.1 t).1

-- The failure count of an active webhook is the number of failed deliveries since the last that
-- went through, and its delivery time is the time of that one, whatever came before.
pub deliver_all_lem :
    (k now : ℕ) (before later : List (ℕ × Reply)) (reply : Reply) (t : Table Webhook) (w : Webhook)
    → find k t ≡ some w
    → is_active w ≡ true
    → fails reply ≡ false
    → All (λ r. fails r.1 ≡ true) later
    → (v : Webhook) × (find k (deliver_all k (before ++ (now, reply) ∷ later) t) ≡ some v)
      × (v.failure_count ≡ length later)
      × (v.last_delivery_at ≡ some now)
unfolding deliver_all delivered is_active
deliver_all_lem k now before later reply t w there on good bad =
    let t1 = deliver_all k before t in
    let (u, there1, on1) = kept k before t w there on in
    let t2 = (deliver_webhook_by_id now k reply t1).1 in
    let there2 : find k t2 ≡ some (delivered now u) =
      rw (opened now k reply t1 there1 on1) (good_reply now k reply t1 u there1 good) in
    let (v, e, n, last) = run_of_failures k later t2 (delivered now u) there2 on1 bad in
    (v, rw (deliver_all-append k before ((now, reply) ∷ later) t) e, omega (arith, n), last)
