-- ===== src/Notifications/InApp/Reading.antt =====
-- What pushing and reading leave in a user's list.
use mathlib.Core.List.{append-nil}
use open_civic.Common.{
  ℕ, ◌+◌, ◌≤◌, ◌≡◌, refl, ap, ◌∙◌, Bool, true, false, not, ◌&&◌, inl, inr, some, List, [], ◌∷◌,
  ◌++◌, ◌==◌, ==_refl, if◌then◌else◌, take, length, length-append, length-take-le, take_all, map,
  ltb, arith, Bool-cases,
}
use open_civic.Common.Cache.{cache_set, cache_get-cache_set}
use open_civic.Notifications.InApp.{
  Notification, Raw, item, broken, Inbox, ttl_seconds, all_items, push, decode, list_for_user,
  count_unread, unread_count, mark, count_marked, reversed, mark_where, mark_read, mark_all_read,
}

all_items-cache_set :
    (now u : ℕ) (rs : List Raw) (s : Inbox)
    → all_items now u (cache_set now u rs (some ttl_seconds) s) ≡ rs
unfolding all_items
all_items-cache_set now u rs s =
    rw (cache_get-cache_set now u u rs (some ttl_seconds) s, ==_refl u, all_items)

-- A push puts the notification before all others, and keeps a hundred at most.
pub push_lem :
    (now u : ℕ) (n : Notification) (s : Inbox)
    → (all_items now u (push now u n s) ≡ item n ∷ take 99 (all_items now u s))
      × (length (all_items now u (push now u n s)) ≤ 100)
unfolding push
push_lem now u n s =
    let e = all_items-cache_set now u (take 100 (item n ∷ all_items now u s)) s in
    (e, rw e (length-take-le 100 (item n ∷ all_items now u s)))

decode-append : (xs ys : List Raw) → decode (xs ++ ys) ≡ decode xs ++ decode ys
unfolding decode
decode-append [] ys = refl
decode-append (item n ∷ xs) ys = ap (λ t. n ∷ t) (decode-append xs ys)
decode-append (broken x ∷ xs) ys = decode-append xs ys

count_unread-append :
    (xs ys : List Notification) → count_unread (xs ++ ys) ≡ count_unread xs + count_unread ys
unfolding count_unread
count_unread-append [] ys = omega arith
count_unread-append (n ∷ xs) ys = omega (arith, count_unread-append xs ys)

count_unread-reversed :
    (rs : List Raw) → count_unread (decode (reversed rs)) ≡ count_unread (decode rs)
unfolding reversed decode count_unread
count_unread-reversed [] = refl
count_unread-reversed (item n ∷ rs) =
    rw
      (
        decode-append (reversed rs) (item n ∷ []),
        count_unread-append (decode (reversed rs)) (n ∷ []),
      )
      (omega (arith, count_unread-reversed rs))
count_unread-reversed (broken x ∷ rs) =
    rw (decode-append (reversed rs) (broken x ∷ []), count_unread-append (decode (reversed rs)) [])
      (omega (arith, count_unread-reversed rs))

length-mark : (p : Notification → Bool) (rs : List Raw) → length (reversed (mark p rs)) ≡ length rs
unfolding mark reversed
length-mark p [] = refl
length-mark p (item n ∷ rs) =
    rw
      (length-append (reversed (mark p rs))
        (item (if p n then record n { is_read = true } else n) ∷ []))
      (omega (arith, length-mark p rs))
length-mark p (broken x ∷ rs) =
    rw (length-append (reversed (mark p rs)) (broken x ∷ [])) (omega (arith, length-mark p rs))

-- Marking everything leaves nothing unread, and counts what was.
marked_all :
    (rs : List Raw)
    → (count_unread (decode (mark (λ n. not n.is_read) rs)) ≡ 0)
      × (count_marked (λ n. not n.is_read) rs ≡ count_unread (decode rs))
unfolding mark decode count_unread count_marked
marked_all [] = (refl, refl)
marked_all (item n ∷ rs) =
    let (a, b) = marked_all rs in
    elim (Bool-cases n.is_read) [
      | inl old ↦ (rw (old, a) refl, rw old (omega (arith, b)))
      | inr new ↦ (rw (new, a) refl, rw new (omega (arith, b)))
    ]
marked_all (broken x ∷ rs) = marked_all rs

count_of :
    (now u : ℕ) (p : Notification → Bool) (s : Inbox)
    → (mark_where now u p s).0 ≡ count_marked p (take 100 (all_items now u s))
unfolding mark_where
count_of now u p s = refl

items-mark_where :
    (now u : ℕ) (p : Notification → Bool) (s : Inbox)
    → ltb 0 (count_marked p (take 100 (all_items now u s))) ≡ true
    → all_items now u (mark_where now u p s).1 ≡ reversed (mark p (take 100 (all_items now u s)))
unfolding mark_where
items-mark_where now u p s h =
    rw h (all_items-cache_set now u (reversed (mark p (take 100 (all_items now u s)))) s)

same-mark_where :
    (now u : ℕ) (p : Notification → Bool) (s : Inbox)
    → ltb 0 (count_marked p (take 100 (all_items now u s))) ≡ false
    → (mark_where now u p s).1 ≡ s
unfolding mark_where
same-mark_where now u p s h = rw (h, mark_where)

take_marked :
    (p : Notification → Bool) (rs : List Raw)
    → take 100 (reversed (mark p (take 100 rs))) ≡ reversed (mark p (take 100 rs))
take_marked p rs =
    let bound = length-take-le 100 rs in
    take_all 100 (reversed (mark p (take 100 rs))) (omega (arith, length-mark p (take 100 rs)))

-- Marking all as read reports how many were unread, and leaves none unread.
pub unread_count-mark_all_read :
    (now u : ℕ) (s : Inbox)
    → let (count, s') = mark_all_read now u s in
      (count ≡ unread_count now u s) × (unread_count now u s' ≡ 0)
unfolding mark_all_read unread_count list_for_user
unread_count-mark_all_read now u s =
    let raw = take 100 (all_items now u s) in
    let (none_left, counted) = marked_all raw in
    (
      count_of now u (λ n. not n.is_read) s ∙ counted,
      elim (Bool-cases (ltb 0 (count_marked (λ n. not n.is_read) raw))) [
        | inl some_new ↦ rw (items-mark_where now u (λ n. not n.is_read) s some_new) (
            rw (take_marked (λ n. not n.is_read) (all_items now u s))
              (count_unread-reversed (mark (λ n. not n.is_read) raw) ∙ none_left))
        | inr all_old ↦ rw (same-mark_where now u (λ n. not n.is_read) s all_old) (ground arith)
      ],
    )

unfoldable pub backwards : List Notification → List Notification
backwards [] = []
backwards (n ∷ ns) = backwards ns ++ (n ∷ [])

decode-reversed : (rs : List Raw) → decode (reversed rs) ≡ backwards (decode rs)
unfolding decode reversed backwards
decode-reversed [] = refl
decode-reversed (item n ∷ rs) =
    decode-append (reversed rs) (item n ∷ []) ∙ ap (λ t. t ++ (n ∷ [])) (decode-reversed rs)
decode-reversed (broken x ∷ rs) =
    decode-append (reversed rs) (broken x ∷ [])
    ∙ append-nil (decode (reversed rs))
    ∙ decode-reversed rs

decode-mark :
    (p : Notification → Bool) (rs : List Raw)
    → decode (mark p rs) ≡ map (λ n. if p n then record n { is_read = true } else n) (decode rs)
unfolding decode mark
decode-mark p [] = refl
decode-mark p (item n ∷ rs) =
    ap (λ t. (if p n then record n { is_read = true } else n) ∷ t) (decode-mark p rs)
decode-mark p (broken x ∷ rs) = decode-mark p rs

-- Marking one notification as read turns the list around: the newest comes last from then on.
pub list_for_user-mark_read :
    (now u id : ℕ) (s : Inbox)
    → (mark_read now u id s).0 ≡ true
    → list_for_user now u 100 (mark_read now u id s).1
      ≡ backwards (
          map
            (λ n. if n.id == id && not n.is_read then record n { is_read = true } else n)
            (list_for_user now u 100 s))
unfolding mark_read list_for_user
list_for_user-mark_read now u id s found =
    let p : Notification → Bool = λ n. n.id == id && not n.is_read in
    let raw = take 100 (all_items now u s) in
    rw (items-mark_where now u p s (rw (count_of now u p s) at found)) (
      rw (take_marked p (all_items now u s))
        (decode-reversed (mark p raw) ∙ ap backwards (decode-mark p raw)))
